-- ===== src/Space/Permits.antt =====
-- Which requests dashboard/SpaceService/server.mjs signs.
use otmc_broker.Prelude.{
  Text, codes, text_eq, text_eq_iff, Bool-cases, true, false, [], ◌∷◌, Option, none, some, inl, inr,
  ◌⊎◌, ◌≡◌, ◌∙◌, refl, ap, All, All-append,
}
use otmc_broker.Result.{Result, ok, err, Result-cases}
use otmc_broker.Json.{Value, string, property}
use otmc_broker.PlainObject.{Found, missing, inherited, found}
use otmc_broker.Space.Openssl.{Command, verify, show_subject, sign}
use otmc_broker.Space.{
  Profile, Reply, State, System, Request, readable, unreadable, common_name_of, is_refused,
  test_name, csr_path, crt_path, exec, run_folder, written, check_csr, try_sign, removed, clean,
  finish, sign_csr, body_of, profile_of, handle_sign, handle_request,
}

abbrev pub IsNoSign : Command → Type 0
IsNoSign (sign csr_path crt_path) = ⊥
IsNoSign command = Unit

-- A request for the route whose `csr` is the text and whose `profile` names the profile.
pub record Asks (request : Request) (csr : Text) (profile : Profile) : Type 0 where
  pub body : Option Value
  pub route : request ≡ readable true body
  pub csr_text : property (body_of body) (codes "csr") ≡ ok (some (string csr))
  pub named : profile_of (property (body_of body) (codes "profile")) ≡ found profile

removed-ran : (r : Result (Unit {0})) (path : Text) (s : State) → (removed r path s).ran ≡ s.ran
removed-ran (ok t) path s = refl
removed-ran (err thrown) path s = refl

module _ (system : System) where
  -- openssl accepts the signature of the request, and the first `CN=` in the subject that it shows names
  -- the profile.
  pub record IsPermitted (csr : Text) (profile : Profile) (s : State) : Type 0 where
    pub output : Text
    pub verified : (exec system (verify (csr_path system csr)) (written system csr s)).0 ≡ ok output
    pub subject : Text
    pub shown :
        (exec system
          (show_subject (csr_path system csr))
          (exec system (verify (csr_path system csr)) (written system csr s)).1).0
        ≡ ok subject
    pub named : common_name_of subject ≡ some profile.common_name

  not_refused :
      (name : Option Text) (profile : Found Profile)
      → is_refused name profile ≡ ok false
      → (p : Profile) × (profile ≡ found p) × (name ≡ some p.common_name)
  unfolding is_refused test_name
  not_refused none profile e = absurd (cc e)
  not_refused (some name) missing e = absurd (cc e)
  not_refused (some name) inherited e = absurd (cc e)
  not_refused (some name) (found p) e = elim (Bool-cases (text_eq name p.common_name)) [
    | inl same ↦ (p, refl, ap some ((text_eq_iff name p.common_name).0 same))
    | inr other ↦ absurd (cc (rw other at e))
  ]

  exec-IsNoSign :
      (command : Command) (s : State)
      → IsNoSign command
      → All IsNoSign s.ran
      → All IsNoSign (exec system command s).1.ran
  unfolding exec
  exec-IsNoSign command s harmless all = All-append IsNoSign s.ran (command ∷ []) all (harmless, tt)

  check_csr-signs :
      (csr : Text) (profile : Found Profile) (s : State)
      → All IsNoSign s.ran
      → All IsNoSign (check_csr system csr profile (written system csr s)).1.ran
        ⊎ ((p : Profile) × (profile ≡ found p) × IsPermitted csr p s)
  unfolding check_csr
  check_csr-signs csr profile s none_yet =
      let s1 : State = written system csr s in
      let (r2, s2) = exec system (verify (csr_path system csr)) s1 in
      let all2 : All IsNoSign (exec system (verify (csr_path system csr)) s1).1.ran =
        exec-IsNoSign (verify (csr_path system csr)) s1 tt none_yet in
      let all3 =
        exec-IsNoSign (show_subject (csr_path system csr))
          (exec system (verify (csr_path system csr)) s1).1 tt all2 in
      elim (Result-cases (exec system (verify (csr_path system csr)) s1).0) [
        | inr (thrown, e) ↦ inl (rw (check_csr, e) all2)
        | inl (output, e) ↦
            elim (Result-cases
              (exec system (show_subject (csr_path system csr))
                (exec system (verify (csr_path system csr)) s1).1).0) [
                  | inr (thrown, e') ↦ inl (rw (check_csr, e, e') all3)
                  | inl (subject, e') ↦
                      elim (Result-cases (is_refused (common_name_of subject) profile)) [
                        | inr (thrown, e'') ↦ inl (rw (check_csr, e, e', e'') all3)
                        | inl (true, e'') ↦ inl (rw (check_csr, e, e', e'') all3)
                        | inl (false, e'') ↦
                            let (p, found_p, named) =
                              not_refused (common_name_of subject) profile e'' in
                            inr (
                              p,
                              found_p,
                              record {
                                output = output;
                                verified = e;
                                subject = subject;
                                shown = e';
                                named = named;
                              },
                            )
                      ]
                ]
      ]

  try_sign-signs :
      (csr : Text) (profile : Found Profile) (s : State)
      → All IsNoSign s.ran
      → All IsNoSign (try_sign system csr profile s).1.ran
        ⊎ ((p : Profile) × (profile ≡ found p) × IsPermitted csr p s)
  unfolding try_sign
  try_sign-signs csr profile s none_yet =
      elim (Result-cases (system.make_folder (run_folder system csr))) [
        | inr (thrown, e) ↦ inl (rw (try_sign, e) none_yet)
        | inl (t, e) ↦ elim (Result-cases (system.write_file (csr_path system csr) csr)) [
          | inr (thrown, e') ↦ inl (rw (try_sign, e, e') none_yet)
          | inl (t', e') ↦ rw (try_sign, e, e') (check_csr-signs csr profile s none_yet)
        ]
      ]

  clean-ran : (csr : Text) (s : State) → (clean system csr s).ran ≡ s.ran
  clean-ran csr s =
      removed-ran (system.remove_file (crt_path system csr)) (crt_path system csr) _
      ∙ removed-ran (system.remove_file (csr_path system csr)) (csr_path system csr) s

  finish-ran :
      (csr : Text) (done : Result Reply × State) → (finish system csr done).1.ran ≡ done.1.ran
  finish-ran csr (ok reply, s) = clean-ran csr s
  finish-ran csr (err thrown, s) = clean-ran csr s

  sign_csr-signs :
      (field : Result (Option Value)) (profile : Found Profile) (s : State)
      → All IsNoSign s.ran
      → All IsNoSign (sign_csr system field profile s).1.ran
        ⊎ ((csr : Text) × (p : Profile) × (field ≡ ok (some (string csr)))
            × (profile ≡ found p)
            × IsPermitted csr p s)
  unfolding sign_csr
  sign_csr-signs (ok (some (string csr))) profile s none_yet =
      elim (try_sign-signs csr profile s none_yet) [
        | inl none_run ↦ inl (rw (finish-ran csr (try_sign system csr profile s)) none_run)
        | inr (p, e, permitted) ↦ inr (csr, p, refl, e, permitted)
      ]
  sign_csr-signs other profile s none_yet = inl none_yet

  -- If no command to sign was run before a request, and one was run when it is answered, then the request
  -- is for the route, its `csr` is a text whose signature openssl accepts, its `profile` is one of the
  -- profiles, and the first `CN=` in the subject that openssl shows has the name of the profile.
  pub handle_request-signs :
      (request : Request) (s : State)
      → All IsNoSign s.ran
      → All IsNoSign (handle_request system request s).1.ran
        ⊎ ((csr : Text) × (p : Profile) × Asks request csr p × IsPermitted csr p s)
  unfolding handle_request handle_sign
  handle_request-signs (unreadable status) s none_yet = inl none_yet
  handle_request-signs (readable false body) s none_yet = inl none_yet
  handle_request-signs (readable true body) s none_yet =
      elim (sign_csr-signs (property (body_of body) (codes "csr"))
        (profile_of (property (body_of body) (codes "profile"))) s none_yet) [
          | inl none_run ↦ inl none_run
          | inr (csr, p, field, profile, permitted) ↦ inr (
            csr,
            p,
            record { body = body; route = refl; csr_text = field; named = profile },
            permitted,
          )
        ]
