-- ===== src/Proxy/Handlers.antt =====
-- What handlers send that are made of others.
use github_oras_packages.Base.{
  ℕ, ◌+◌, ◌≡◌, refl, Bool, true, false, Result, ok, err, arith, if◌then◌else◌,
}
use github_oras_packages.Oci.Client.{OciRequest, ClientState, Action}
use github_oras_packages.Oci.Confined.{Sends, Within, silent, in_turn, weaken}
use github_oras_packages.Oci.Errors.{OciError}
use github_oras_packages.Proxy.{Handler, ServiceResponse, answer, settle, after}

-- From every state a handler sends at most `k` requests, and `P` holds of each.
module _ {κ} (P : OciRequest → Type κ) where
  abbrev pub HandlerWithin : ℕ → Handler → Type κ
  HandlerWithin k handler = (s : ClientState) → Sends P k s (handler s).1

  pub answer-HandlerWithin :
      (k : ℕ) (response : ServiceResponse) → HandlerWithin k (answer response)
  answer-HandlerWithin k response s = silent P s s k refl

  settle-HandlerWithin :
      {A : Type 0} (j k : ℕ) (l : Bool) (handler : A → Handler) (r : Result OciError A)
      (before middle : ClientState)
      → Sends P j before middle
      → ((a : A) → HandlerWithin k (handler a))
      → Sends P (j + k) before (settle l handler r middle).1
  settle-HandlerWithin j k l handler (ok a) before middle p q =
      in_turn P j k before middle _ p (q a middle)
  settle-HandlerWithin j k l handler (err e) before middle p q =
      weaken P j (j + k) before middle (omega arith) p

  pub after-HandlerWithin :
      {A : Type 0} (j k : ℕ) (l : Bool) (call : Action A) (handler : A → Handler)
      → Within P j call
      → ((a : A) → HandlerWithin k (handler a))
      → HandlerWithin (j + k) (after l call handler)
  unfolding after
  after-HandlerWithin j k l call handler p q s =
      settle-HandlerWithin j k l handler (call s).0 s (call s).1 (p s) q

  pub choice :
      (k : ℕ) (b : Bool) (x y : Handler)
      → (b ≡ true → HandlerWithin k x)
      → (b ≡ false → HandlerWithin k y)
      → HandlerWithin k (if b then x else y)
  choice k true x y p q = p refl
  choice k false x y p q = q refl
