-- ===== src/Auth/Lockout.antt =====
-- Five wrong passwords lock an account, until a quarter of an hour has passed.
use face_cam.Prelude.{
  ℕ, ◌+◌, ◌*◌, ◌<◌, ◌≤◌, ◌≡◌, inl, inr, refl, ap, sym, ◌∙◌, ◌++◌, true, false, Option, none, some,
  List, [], ◌∷◌, All, length, Text, ==_refl, arith, Option-cases,
}
use face_cam.Prelude.Errors.{ok, err, invalid_credentials, account_locked}
use face_cam.Session.{LoginInput, lockout_minutes, max_failed_logins}
use face_cam.Context.{RequestStore}
use face_cam.Rows.{Tenant, User}
use face_cam.Store.{Table}
use face_cam.Auth.{
  Crypto, Session, AuthState, id_of, failure, success, has_id, email_in, locked_at, is_disabled,
  IsUsable, issue_session, to_session_user, access_claims, refresh_claims, sign_in,
}

module _ (tenants : Table Tenant (λ t. t.id)) (users : Table User (λ u. u.id))
    (crypto : Crypto) where
  -- The address and the tenant single out one account, as the table's unique index has it.
  unfoldable pub IsOnly : Text → Option ℕ → ℕ → users.State → Type 0
  IsOnly email tenant_id id us =
      (q : User)
      → users.find_unique us q.id ≡ some q
      → email_in email tenant_id q ≡ true
      → q.id ≡ id

  find_only :
      (us : users.State) (email : Text) (tenant_id : Option ℕ) (u : User)
      → users.find_unique us u.id ≡ some u
      → email_in email tenant_id u ≡ true
      → IsOnly email tenant_id u.id us
      → users.find_first us (email_in email tenant_id) ≡ some u
  unfolding IsOnly
  find_only us email tenant_id u stored fits only =
      elim (Option-cases (users.find_first us (email_in email tenant_id))) [
        | inl nobody ↦
            absurd (cc (users.find_first_none us (email_in email tenant_id) u.id u nobody stored))
        | inr (q, found) ↦
            let (there, passed) = users.find_first_sound us (email_in email tenant_id) q found in
            let same = only q there passed in cc
      ]

  find_updated :
      (us : users.State) (f : User → User) (u : User)
      → ((q : User) → (f q).id ≡ q.id)
      → users.find_unique us u.id ≡ some u
      → users.find_unique (users.update_many (has_id u.id) f us) u.id ≡ some (f u)
  find_updated us f u keeps stored =
      rw (users.find_unique-update_many us (has_id u.id) f u.id keeps, stored, ==_refl u.id)

  failure_keeps :
      (us : users.State) (email : Text) (tenant_id : Option ℕ) (now : ℕ) (u : User)
      → users.find_unique us u.id ≡ some u
      → IsOnly email tenant_id u.id us
      → IsOnly email tenant_id u.id (users.update_many (has_id u.id) (failure now u) us)
  unfolding IsOnly
  failure_keeps us email tenant_id now u stored only q there passed =
      let moved = users.find_unique-update_many us (has_id u.id) (failure now u) q.id (λ p. refl) in
      elim (Option-cases (users.find_unique us q.id)) [
        | inl gone ↦ absurd (ground arith)
        | inr (p, before) ↦
            let key = users.find_unique-key us q.id p before in ground (arith, only p)
      ]

  -- What a run of sign-ins leaves.
  pub replay :
      Option Tenant
      → List (ℕ × LoginInput)
      → Option RequestStore × AuthState tenants users crypto
      → Option RequestStore × AuthState tenants users crypto
  replay tenant [] st = st
  replay tenant ((now, input) ∷ rest) st =
      replay tenant rest (sign_in tenants users crypto now input tenant st).1

  -- A wrong password for this account.
  abbrev pub IsWrong : User → ℕ × LoginInput → Type 0
  IsWrong u (now, input) =
      (input.email ≡ u.email) × (crypto.verify_password u.password_hash input.password ≡ false)

  sign_in-wrong :
      (now : ℕ) (input : LoginInput) (tenant : Option Tenant) (r : RequestStore)
      (ts : tenants.State) (us : users.State) (u : User)
      → users.find_first us (email_in input.email (id_of tenant)) ≡ some u
      → IsUsable now u
      → crypto.verify_password u.password_hash input.password ≡ false
      → sign_in tenants users crypto now input tenant (some r, (ts, us)) ≡ (
        err invalid_credentials,
        (some r, (ts, users.update_many (has_id u.id) (failure now u) us)),
      )
  unfolding sign_in
  sign_in-wrong now input tenant r ts us u found usable wrong = ground arith

  -- The account after `n` more failures, while there are fewer than five.
  abbrev counted : ℕ → User → User
  counted n u = record u { failed_login_count = n; locked_until = none }

  failure-counted :
      (now : ℕ) (u : User)
      → u.failed_login_count + 1 < max_failed_logins
      → failure now u u ≡ counted (u.failed_login_count + 1) u
  failure-counted now u h = ground arith

  counted_same : (u : User) → u.locked_until ≡ none → counted (u.failed_login_count + 0) u ≡ u
  counted_same u h = ground arith

  replay-append :
      (tenant : Option Tenant) (xs ys : List (ℕ × LoginInput))
      (st : Option RequestStore × AuthState tenants users crypto)
      → replay tenant (xs ++ ys) st ≡ replay tenant ys (replay tenant xs st)
  unfolding replay
  replay-append tenant [] ys st = refl
  replay-append tenant (x ∷ xs) ys st =
      replay-append tenant xs ys (sign_in tenants users crypto x.0 x.1 tenant st).1

  record Reached (tenant : Option Tenant) (attempts : List (ℕ × LoginInput)) (r : RequestStore)
      (ts : tenants.State) (us : users.State) (u u' : User) : Type 0 where
    after : users.State
    runs : replay tenant attempts (some r, (ts, us)) ≡ (some r, (ts, after))
    stored : users.find_unique after u.id ≡ some u'
    only : IsOnly u.email (id_of tenant) u.id after

  one_failure :
      (now : ℕ) (input : LoginInput) (tenant : Option Tenant) (r : RequestStore)
      (ts : tenants.State) (us : users.State) (u : User)
      → users.find_unique us u.id ≡ some u
      → email_in u.email (id_of tenant) u ≡ true
      → IsOnly u.email (id_of tenant) u.id us
      → IsUsable now u
      → IsWrong u (now, input)
      → Reached tenant ((now, input) ∷ []) r ts us u (failure now u u)
  unfolding replay
  one_failure now input tenant r ts us u stored fits only usable (same, wrong) = record {
    after = users.update_many (has_id u.id) (failure now u) us;
    runs =
        let found = find_only us u.email (id_of tenant) u stored fits only in
        ap (λ x. x.1) (sign_in-wrong now input tenant r ts us u (rw same found) usable wrong);
    stored = find_updated us (failure now u) u (λ p. refl) stored;
    only = failure_keeps us u.email (id_of tenant) now u stored only;
  }

  replay_counts :
      (attempts : List (ℕ × LoginInput)) (tenant : Option Tenant) (r : RequestStore)
      (ts : tenants.State) (us : users.State) (u : User)
      → users.find_unique us u.id ≡ some u
      → email_in u.email (id_of tenant) u ≡ true
      → IsOnly u.email (id_of tenant) u.id us
      → u.locked_until ≡ none
      → is_disabled u.status ≡ false
      → u.failed_login_count + length attempts < max_failed_logins
      → All (IsWrong u) attempts
      → Reached tenant attempts r ts us u (counted (u.failed_login_count + length attempts) u)
  unfolding replay
  replay_counts [] tenant r ts us u stored fits only open_ enabled few wrong = record {
    after = us;
    runs = refl;
    stored = stored ∙ ap some (sym (counted_same u open_));
    only = only;
  }
  replay_counts ((now, input) ∷ rest) tenant r ts us u stored fits only open_ enabled few
        (here, there) =
      let first = one_failure now input tenant r ts us u stored fits only (ground arith) here in
      let u' = counted (u.failed_login_count + 1) u in
      let more =
        replay_counts rest tenant r ts first.after u'
          (first.stored ∙ ap some (failure-counted now u (omega arith))) fits first.only refl
          enabled (omega arith) there in
      record {
        after = more.after;
        runs = ap (replay tenant rest) first.runs ∙ more.runs;
        stored = more.stored ∙ ap (λ n. some (counted n u)) (omega arith);
        only = more.only;
      }

  abbrev locked_row : ℕ → User → User
  locked_row now u = record u {
    failed_login_count = 0;
    locked_until = some (now + lockout_minutes * 60000);
  }

  failure-locked :
      (now : ℕ) (u : User)
      → u.failed_login_count + 1 ≡ max_failed_logins
      → failure now u u ≡ locked_row now u
  failure-locked now u h = ground arith

  -- Where five failures in a row lead.
  fifth :
      (attempts : List (ℕ × LoginInput)) (now : ℕ) (input : LoginInput) (tenant : Option Tenant)
      (r : RequestStore) (ts : tenants.State) (us : users.State) (u : User)
      → users.find_unique us u.id ≡ some u
      → email_in u.email (id_of tenant) u ≡ true
      → IsOnly u.email (id_of tenant) u.id us
      → u.locked_until ≡ none
      → is_disabled u.status ≡ false
      → u.failed_login_count + length attempts + 1 ≡ max_failed_logins
      → All (IsWrong u) attempts
      → IsWrong u (now, input)
      → Reached tenant (attempts ++ (now, input) ∷ []) r ts us u (locked_row now u)
  fifth attempts now input tenant r ts us u stored fits only open_ enabled five wrong last =
      let before =
        replay_counts attempts tenant r ts us u stored fits only open_ enabled (omega arith)
          wrong in
      let u' = counted (u.failed_login_count + length attempts) u in
      let after =
        one_failure now input tenant r ts before.after u' before.stored fits before.only
          (refl, enabled) last in
      record {
        after = after.after;
        runs =
            replay-append tenant attempts ((now, input) ∷ []) (some r, (ts, us))
            ∙ ap (replay tenant ((now, input) ∷ [])) before.runs
            ∙ after.runs;
        stored = after.stored ∙ ap some (failure-locked now u' (omega arith));
        only = after.only;
      }

  sign_in-locked :
      (now : ℕ) (input : LoginInput) (tenant : Option Tenant) (r : RequestStore)
      (ts : tenants.State) (us : users.State) (u : User)
      → users.find_first us (email_in input.email (id_of tenant)) ≡ some u
      → locked_at now u.locked_until ≡ true
      → sign_in tenants users crypto now input tenant (some r, (ts, us))
        ≡ (err account_locked, (some r, (ts, us)))
  unfolding sign_in
  sign_in-locked now input tenant r ts us u found locked = ground arith

  sign_in-right :
      (now : ℕ) (input : LoginInput) (tenant : Option Tenant) (r : RequestStore)
      (ts : tenants.State) (us : users.State) (u : User)
      → users.find_first us (email_in input.email (id_of tenant)) ≡ some u
      → IsUsable now u
      → crypto.verify_password u.password_hash input.password ≡ true
      → sign_in tenants users crypto now input tenant (some r, (ts, us))
        ≡ issue_session tenants users crypto now u tenant
            (some r, (ts, users.update_many (has_id u.id) (success now) us))
  unfolding sign_in
  sign_in-right now input tenant r ts us u found usable right = ground arith

  opened_session :
      (now : ℕ) (input : LoginInput) (tenant : Option Tenant) (r : RequestStore)
      (ts : tenants.State) (us : users.State) (u : User)
      → users.find_first us (email_in input.email (id_of tenant)) ≡ some u
      → IsUsable now u
      → crypto.verify_password u.password_hash input.password ≡ true
      → sign_in tenants users crypto now input tenant (some r, (ts, us)) ≡ (
        ok (record {
          user = to_session_user u tenant;
          access_token = crypto.sign_access now (access_claims u tenant);
          refresh_token = crypto.sign_refresh now (refresh_claims u);
        }),
        (some r, (ts, users.update_many (has_id u.id) (success now) us)),
      )
  unfolding issue_session
  opened_session = sign_in-right

  -- Five wrong passwords in a row, counting those that the row already has, lock the account. Until
  -- fifteen minutes after the last of them every sign-in to it is refused, with the right password
  -- too, and changes nothing.
  pub five_failures_lock :
      (attempts : List (ℕ × LoginInput)) (now : ℕ) (input : LoginInput) (tenant : Option Tenant)
      (r : RequestStore) (ts : tenants.State) (us : users.State) (u : User) (later : ℕ)
      (retry : LoginInput)
      → users.find_unique us u.id ≡ some u
      → email_in u.email (id_of tenant) u ≡ true
      → IsOnly u.email (id_of tenant) u.id us
      → u.locked_until ≡ none
      → is_disabled u.status ≡ false
      → u.failed_login_count + length attempts + 1 ≡ max_failed_logins
      → All (IsWrong u) attempts
      → IsWrong u (now, input)
      → later < now + lockout_minutes * 60000
      → retry.email ≡ u.email
      → let st = replay tenant (attempts ++ (now, input) ∷ []) (some r, (ts, us)) in
        sign_in tenants users crypto later retry tenant st ≡ (err account_locked, st)
  five_failures_lock attempts now input tenant r ts us u later retry stored fits only open_ enabled
        five wrong last soon same =
      let end =
        fifth attempts now input tenant r ts us u stored fits only open_ enabled five wrong last in
      let found = find_only end.after u.email (id_of tenant) _ end.stored fits end.only in
      let x = locked_row now u in
      let again : users.find_first end.after (email_in retry.email (id_of tenant)) ≡ some x =
        rw same found in
      rw end.runs (sign_in-locked later retry tenant r ts end.after x again (ground arith))

  -- From then on the right password signs in again, and the failures are forgotten.
  pub lock_expires :
      (attempts : List (ℕ × LoginInput)) (now : ℕ) (input : LoginInput) (tenant : Option Tenant)
      (r : RequestStore) (ts : tenants.State) (us : users.State) (u : User) (later : ℕ)
      (retry : LoginInput)
      → users.find_unique us u.id ≡ some u
      → email_in u.email (id_of tenant) u ≡ true
      → IsOnly u.email (id_of tenant) u.id us
      → u.locked_until ≡ none
      → is_disabled u.status ≡ false
      → u.failed_login_count + length attempts + 1 ≡ max_failed_logins
      → All (IsWrong u) attempts
      → IsWrong u (now, input)
      → now + lockout_minutes * 60000 ≤ later
      → retry.email ≡ u.email
      → crypto.verify_password u.password_hash retry.password ≡ true
      → (session : Session) × (us' : users.State) × (sign_in tenants users crypto later retry tenant
            (replay tenant (attempts ++ (now, input) ∷ []) (some r, (ts, us)))
          ≡ (ok session, (some r, (ts, us'))))
        × (users.find_unique us' u.id ≡ some (success later u))
  lock_expires attempts now input tenant r ts us u later retry stored fits only open_ enabled five
        wrong last over same right =
      let end =
        fifth attempts now input tenant r ts us u stored fits only open_ enabled five wrong last in
      let found = find_only end.after u.email (id_of tenant) _ end.stored fits end.only in
      let x = locked_row now u in
      let again : users.find_first end.after (email_in retry.email (id_of tenant)) ≡ some x =
        rw same found in
      (
        record {
          user = to_session_user x tenant;
          access_token = crypto.sign_access later (access_claims x tenant);
          refresh_token = crypto.sign_refresh later (refresh_claims x);
        },
        users.update_many (has_id u.id) (success later) end.after,
        rw end.runs (
            opened_session later retry tenant r ts end.after x again (ground arith, enabled) right),
        find_updated end.after (success later) x (λ p. refl) end.stored,
      )
