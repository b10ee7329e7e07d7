-- ===== src/Compreface/Sessions.antt =====
-- The cached admin session: what it may hold, and how long its cookie is used.
use face_cam.Prelude.{
  ℕ, ◌+◌, ◌-◌, ◌*◌, ◌<◌, ◌≡◌, ◌⊎◌, inl, inr, refl, sym, ap, ◌∙◌, true, Option, none, some, List, [],
  ◌∷◌, Text, codes, is_empty, ltb, ◌||◌, or_default, arith, Option-cases, Bool-cases,
}
use face_cam.Prelude.Errors.{
  Error, ok, err, engine_not_configured, engine_unreachable, engine_unreachable, engine_auth_failed,
  unreadable_answer,
}
use mathlib.Core.Path.{subst}
use face_cam.Face.{Image}
use face_cam.Compreface.Cookies.{extract_cookie}
use face_cam.Compreface.{
  Response, Session, Client, Engine, is_ok, login_call, expiry, fetch_with_timeout, sign_in_admin,
  admin_session, create_tenant_collection, delete_tenant_collection, add_face, delete_face,
  delete_subject, list_subjects, recognize, ping,
}
use face_cam.Compreface.Requests.{
  add_face-same, delete_face-same, delete_subject-same, list_subjects-same, recognize-same,
  ping-same, create_tenant_collection-same, delete_tenant_collection-same,
}

-- A call of the client.
pub data Called : Type 0 where
  created deleted : ℕ → ℕ → Text → Called
  added : Text → Text → Image → Text → Called
  face_deleted subject_deleted : Text → Text → Called
  listed : Text → Called
  recognized : Text → Image → ℕ → Called
  pinged : Option Text → Called

module _ {X : Type 0} (engine : Engine X) where
  abbrev pub after_call : Called → Client X → Client X
  after_call (created now answered name) s = (create_tenant_collection engine now answered name s).1
  after_call (deleted now answered id) s = (delete_tenant_collection engine now answered id s).1
  after_call (added key subject image name) s = (add_face engine key subject image name s).1
  after_call (face_deleted key id) s = (delete_face engine key id s).1
  after_call (subject_deleted key subject) s = (delete_subject engine key subject s).1
  after_call (listed key) s = (list_subjects engine key s).1
  after_call (recognized key image limit) s = (recognize engine key image limit s).1
  after_call (pinged key) s = (ping engine key s).1

  abbrev pub after_calls : List Called → Client X → Client X
  after_calls [] s = s
  after_calls (c ∷ calls) s = after_calls calls (after_call c s)

  -- A session that a sign-in opened, whose answer was read at `issued`.
  pub record Issued (session : Session) : Type 0 where
    pub issued : ℕ
    pub before : X
    pub later : X
    pub response : Response
    pub text : Text
    pub answered : engine.fetch (login_call engine) before ≡ (some response, later)
    pub accepted : is_ok response.status ≡ true
    pub readable : response.body ≡ some text
    pub cookie :
        extract_cookie (codes "CFSESSION") response.set_cookies response.set_cookie
        ≡ some session.cookie
    pub expires : session.expires_at ≡ expiry engine issued text

  abbrev HasIssued : Option Session → Type 0
  HasIssued held = (session : Session) → held ≡ some session → Issued session

  -- A sign-in fails and leaves the session, or opens one and returns its cookie.
  sign_in_admin_effect :
      (now : ℕ) (s : Client X)
      → ((e : Error) × ((sign_in_admin engine now s).0 ≡ err e)
          × ((sign_in_admin engine now s).1.0 ≡ s.0))
        ⊎ ((session : Session) × ((sign_in_admin engine now s).0 ≡ ok session.cookie)
            × ((sign_in_admin engine now s).1.0 ≡ some session)
            × ((issued : Issued session) × (issued.issued ≡ now)))
  unfolding sign_in_admin fetch_with_timeout
  sign_in_admin_effect now (session, x) =
      elim (Bool-cases (is_empty engine.admin_email || is_empty engine.admin_password)) [
        | inl unset ↦ inl (engine_not_configured, ground arith, ground arith)
        | inr set ↦ elim (Option-cases (engine.fetch (login_call engine) x).0) [
          | inl down ↦ inl (engine_unreachable, ground arith, ground arith)
          | inr (response, up) ↦ elim (Bool-cases (is_ok response.status)) [
            | inr refused ↦ inl (engine_auth_failed, ground arith, ground arith)
            | inl accepted ↦ elim (Option-cases response.body) [
              | inl lost ↦ inl (unreadable_answer, ground arith, ground arith)
              | inr (text, readable) ↦ elim (Bool-cases (engine.is_json text)) [
                | inr broken ↦ inl (unreadable_answer, ground arith, ground arith)
                | inl json ↦
                    elim (Option-cases (
                      extract_cookie (codes "CFSESSION") response.set_cookies
                        response.set_cookie)) [
                          | inl without ↦ inl (engine_auth_failed, ground arith, ground arith)
                          | inr (cookie, found) ↦ inr (
                            record { cookie = cookie; expires_at = expiry engine now text },
                            ground arith,
                            ground arith,
                            (
                              record {
                                issued = now;
                                before = x;
                                later = (engine.fetch (login_call engine) x).1;
                                response = response;
                                text = text;
                                answered = ap (λ r. (r, (engine.fetch (login_call engine) x).1)) up;
                                accepted = accepted;
                                readable = readable;
                                cookie = found;
                                expires = refl;
                              },
                              refl,
                            ),
                          )
                        ]
              ]
            ]
          ]
        ]
      ]

  sign_in_admin-HasIssued :
      (now : ℕ) (s : Client X) → HasIssued s.0 → HasIssued (sign_in_admin engine now s).1.0
  sign_in_admin-HasIssued now s h = elim (sign_in_admin_effect now s) [
    | inl (e, failed, same) ↦ subst HasIssued (sym same) h
    | inr (session, returned, held, issued) ↦ λ other there.
        let same : session ≡ other = cc (sym held ∙ there) in subst Issued same issued.0
  ]

  admin_session-HasIssued :
      (now answered : ℕ) (s : Client X)
      → HasIssued s.0
      → HasIssued (admin_session engine now answered s).1.0
  unfolding admin_session
  admin_session-HasIssued now answered (none, x) h = sign_in_admin-HasIssued answered (none, x) h
  admin_session-HasIssued now answered (some session, x) h =
      elim (Bool-cases (ltb now session.expires_at)) [
        | inl live ↦ rw (admin_session, live) h
        | inr over ↦ rw (admin_session, over) (sign_in_admin-HasIssued answered (some session, x) h)
      ]

  after_call-HasIssued : (c : Called) (s : Client X) → HasIssued s.0 → HasIssued (after_call c s).0
  after_call-HasIssued (created now answered name) s h =
      subst HasIssued (sym (create_tenant_collection-same engine now answered name s))
        (admin_session-HasIssued now answered s h)
  after_call-HasIssued (deleted now answered id) s h =
      subst HasIssued (sym (delete_tenant_collection-same engine now answered id s))
        (admin_session-HasIssued now answered s h)
  after_call-HasIssued (added key subject image name) s h =
      subst HasIssued (sym (add_face-same engine key subject image name s)) h
  after_call-HasIssued (face_deleted key id) s h =
      subst HasIssued (sym (delete_face-same engine key id s)) h
  after_call-HasIssued (subject_deleted key subject) s h =
      subst HasIssued (sym (delete_subject-same engine key subject s)) h
  after_call-HasIssued (listed key) s h = subst HasIssued (sym (list_subjects-same engine key s)) h
  after_call-HasIssued (recognized key image limit) s h =
      subst HasIssued (sym (recognize-same engine key image limit s)) h
  after_call-HasIssued (pinged key) s h = subst HasIssued (sym (ping-same engine key s)) h

  after_calls-HasIssued :
      (calls : List Called) (s : Client X) → HasIssued s.0 → HasIssued (after_calls calls s).0
  after_calls-HasIssued [] s h = h
  after_calls-HasIssued (c ∷ calls) s h =
      after_calls-HasIssued calls (after_call c s) (after_call-HasIssued c s h)

  signed_in :
      {n : ℕ} (answered : ℕ) (s s' : Client X) (cookie : Text)
      → sign_in_admin engine answered s ≡ (ok cookie, s')
      → (session : Session) × (s'.0 ≡ some session)
        × (session.cookie ≡ cookie)
        × ((issue : Issued session) × ((issue.issued ≡ answered)
              ⊎ ((s' ≡ s) × (n < session.expires_at))))
  signed_in answered s s' cookie e = elim (sign_in_admin_effect answered s) [
    | inl (f, failed, same) ↦ absurd (cc (sym failed ∙ ap (λ q. q.0) e))
    | inr (session, returned, held, issued) ↦ (
      session,
      ap (λ q. q.1.0) (sym e) ∙ held,
      cc (sym returned ∙ ap (λ q. q.0) e),
      (issued.0, inl issued.1),
    )
  ]

  admin_session_ok :
      (now answered : ℕ) (s s' : Client X) (cookie : Text)
      → HasIssued s.0
      → admin_session engine now answered s ≡ (ok cookie, s')
      → (session : Session) × (s'.0 ≡ some session)
        × (session.cookie ≡ cookie)
        × ((issue : Issued session) × ((issue.issued ≡ answered)
              ⊎ ((s' ≡ s) × (now < session.expires_at))))
  unfolding admin_session
  admin_session_ok now answered (none, x) s' cookie h e = signed_in answered (none, x) s' cookie e
  admin_session_ok now answered (some session, x) s' cookie h e =
      elim (Bool-cases (ltb now session.expires_at)) [
        | inl live ↦ (
          session,
          ground arith,
          ground arith,
          (h session refl, inr (ground arith, ground arith)),
        )
        | inr over ↦ signed_in answered (some session, x) s' cookie (ground arith)
      ]

  -- A minute before the end, or at once when less than a minute was given.
  lifetime :
      (now issued given : ℕ)
      → now < issued + (given - 60) * 1000
      → (now < issued) ⊎ (now + 60000 < issued + given * 1000)
  lifetime now issued given live = elim (Bool-cases (ltb 60 given)) [
    | inl long ↦ inr (ground arith)
    | inr short ↦ inl (ground arith)
  ]

  -- Whatever calls came before, the cookie that an admin call sends was set by an answer to a
  -- sign-in with the configured credentials. It comes from a sign-in made now, or from the cache,
  -- untouched: then more than a minute is left of the lifetime that the engine gave the session,
  -- unless the clock now shows a time before that sign-in.
  pub admin_session_bounds :
      (calls : List Called) (x : X) (now answered : ℕ) (cookie : Text) (s' : Client X)
      → admin_session engine now answered (after_calls calls (none, x)) ≡ (ok cookie, s')
      → (session : Session) × (s'.0 ≡ some session)
        × (session.cookie ≡ cookie)
        × ((issue : Issued session) × ((issue.issued ≡ answered)
              ⊎ ((s' ≡ after_calls calls (none, x))
                  × ((now < issue.issued)
                      ⊎ (now + 60000
                          < issue.issued
                            + or_default (engine.expires_in issue.text) 2400 * 1000)))))
  admin_session_bounds calls x now answered cookie s' e =
      let (session, held, same, (issue, kind)) =
        admin_session_ok now answered (after_calls calls (none, x)) s' cookie
          (after_calls-HasIssued calls (none, x) (λ session there. absurd (cc there))) e in
      (
        session,
        held,
        same,
        (
          issue,
          elim kind [
            | inl at ↦ inl at
            | inr (kept, live) ↦ inr (
              kept,
              lifetime now issue.issued (or_default (engine.expires_in issue.text) 2400)
                  (subst (λ end. now < end) issue.expires live),
            )
          ],
        ),
      )
