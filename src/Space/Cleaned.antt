-- ===== src/Space/Cleaned.antt =====
-- What a request leaves of its files in dashboard/SpaceService/server.mjs.
use otmc_broker.Prelude.{
  Text, codes, text_eq, text_eq_refl, Bool, true, false, Option, none, some, ◌≡◌, refl,
  if◌then◌else◌,
}
use otmc_broker.Map
use otmc_broker.Result.{Result, ok, err}
use otmc_broker.Json.{Value, string, property}
use otmc_broker.Space.{
  Reply, State, System, readable, csr_path, crt_path, clean, finish, sign_csr, body_of, handle_sign,
  handle_request,
}

none_either : (b : Bool) → ◌≡◌ {A = Option Text} (if b then none else none) none
none_either true = refl
none_either false = refl

module _ (system : System) where
  -- Neither the request nor the response is among the files.
  pub record IsClean (csr : Text) (s : State) : Type 0 where
    pub request : Map.get s.files (csr_path system csr) ≡ none
    pub response : Map.get s.files (crt_path system csr) ≡ none

  module _ (removes : (path : Text) → system.remove_file path ≡ ok tt) where
    clean-IsClean : (csr : Text) (s : State) → IsClean csr (clean system csr s)
    clean-IsClean csr s = record {
      request =
          rw
            (
              removes (csr_path system csr),
              removes (crt_path system csr),
              Map.get-delete,
              Map.get-delete,
              text_eq_refl (csr_path system csr),
            )
            (none_either (text_eq (crt_path system csr) (csr_path system csr)));
      response =
          rw
            (
              removes (csr_path system csr),
              removes (crt_path system csr),
              Map.get-delete,
              text_eq_refl (crt_path system csr),
            )
            refl;
    }

    finish-IsClean :
        (csr : Text) (done : Result Reply × State) → IsClean csr (finish system csr done).1
    finish-IsClean csr (ok reply, s) = clean-IsClean csr s
    finish-IsClean csr (err thrown, s) = clean-IsClean csr s

    -- If files can be removed, then after a request for the route whose `csr` is a text neither the file of
    -- the request nor that of the response is left, whatever openssl does and the reply is.
    pub handle_request-IsClean :
        (body : Option Value) (csr : Text) (s : State)
        → property (body_of body) (codes "csr") ≡ ok (some (string csr))
        → IsClean csr (handle_request system (readable true body) s).1
    unfolding handle_request handle_sign sign_csr
    handle_request-IsClean body csr s field =
        rw (handle_request, handle_sign, field) (finish-IsClean csr _)
