-- ===== src/WorldController/Networking/Netlink/Rules.antt =====
-- Rules for actions of internal-components/world-controller/internal/networking/networking.go that
-- end without an error, and for actions that leave the minors alone.
use yass_simulator.Base.{◌≡◌, refl, ◌∙◌, Bool, true, false, List, [], ◌∷◌, if◌then◌else◌}
use yass_simulator.WorldController.Networking.Netlink.{
  Request, Kernel, Failure, World, Result, ok, err, Action, continue, ◌>>=◌, ◌>>◌, pure, fail,
  ignore, for_each, send, send_add, list_filters, list_qdiscs, listed_then, if_listed,
}

-- The action ends without an error, whatever the kernel answered before.
pub record Succeeds {F IP : Type 0} (m : Action F IP (Unit {0})) : Type 0 where
  pub at : (w : World F IP) → (m w).0 ≡ ok tt

-- The action leaves the minors as they are.
pub record KeepsMinors {F IP A : Type 0} (m : Action F IP A) : Type 0 where
  pub kept : (w : World F IP) → (m w).1.minors ≡ w.minors

module _ {F IP : Type 0} where
  pub Succeeds-pure : Succeeds {F = F} {IP = IP} (pure tt)
  unfolding pure
  Succeeds-pure = record { at = λ w. refl }

  pub Succeeds-ignore : {A : Type 0} (m : Action F IP A) → Succeeds (ignore m)
  unfolding ignore
  Succeeds-ignore m = record { at = λ w. refl }

  pub Succeeds-if :
      (b : Bool) (m n : Action F IP (Unit {0}))
      → Succeeds m
      → Succeeds n
      → Succeeds (if b then m else n)
  Succeeds-if true m n p q = p
  Succeeds-if false m n p q = q

  Succeeds-continue :
      (r : Result (Failure F IP) (Unit {0})) (n : Action F IP (Unit {0})) (w : World F IP)
      → r ≡ ok tt
      → Succeeds n
      → (continue r (λ _. n) w).0 ≡ ok tt
  Succeeds-continue (ok u) n w e q = q.at w
  Succeeds-continue (err x) n w e q = cc

  pub Succeeds-then : (m n : Action F IP (Unit {0})) → Succeeds m → Succeeds n → Succeeds (m >> n)
  unfolding ◌>>◌
  Succeeds-then m n p q = record { at = λ w. Succeeds-continue (m w).0 n (m w).1 (p.at w) q }

  pub Succeeds-for_each :
      {A : Type 0} (xs : List A) (f : A → Action F IP (Unit {0}))
      → ((x : A) → Succeeds (f x))
      → Succeeds (for_each xs f)
  unfolding for_each
  Succeeds-for_each [] f p = Succeeds-pure
  Succeeds-for_each (x ∷ xs) f p =
      Succeeds-then (f x) (for_each xs f) (p x) (Succeeds-for_each xs f p)

  Succeeds-listed_then :
      {A : Type 0} (r : Result (Failure F IP) A) (f : A → Action F IP (Unit {0})) (w : World F IP)
      → ((x : A) → Succeeds (f x))
      → (listed_then r f w).0 ≡ ok tt
  Succeeds-listed_then (ok x) f w p = (p x).at w
  Succeeds-listed_then (err e) f w p = refl

  pub Succeeds-if_listed :
      {A : Type 0} (m : Action F IP A) (f : A → Action F IP (Unit {0}))
      → ((x : A) → Succeeds (f x))
      → Succeeds (if_listed m f)
  unfolding if_listed
  Succeeds-if_listed m f p = record { at = λ w. Succeeds-listed_then (m w).0 f (m w).1 p }

pub ruleset success_rules = (
  Succeeds-pure, Succeeds-ignore, Succeeds-if, Succeeds-then, Succeeds-for_each, Succeeds-if_listed,
)

module _ {F IP : Type 0} where
  pub KeepsMinors-pure : {A : Type 0} (a : A) → KeepsMinors {F = F} {IP = IP} (pure a)
  unfolding pure
  KeepsMinors-pure a = record { kept = λ w. refl }

  pub KeepsMinors-fail : {A : Type 0} (e : Failure F IP) → KeepsMinors {A = A} (fail e)
  unfolding fail
  KeepsMinors-fail e = record { kept = λ w. refl }

  pub KeepsMinors-ignore : {A : Type 0} (m : Action F IP A) → KeepsMinors m → KeepsMinors (ignore m)
  unfolding ignore
  KeepsMinors-ignore m p = record { kept = λ w. p.kept w }

  pub KeepsMinors-if :
      (b : Bool) (m n : Action F IP (Unit {0}))
      → KeepsMinors m
      → KeepsMinors n
      → KeepsMinors (if b then m else n)
  KeepsMinors-if true m n p q = p
  KeepsMinors-if false m n p q = q

  KeepsMinors-continue :
      {A B : Type 0} (r : Result (Failure F IP) A) (f : A → Action F IP B) (w : World F IP)
      → ((a : A) → KeepsMinors (f a))
      → (continue r f w).1.minors ≡ w.minors
  KeepsMinors-continue (ok a) f w q = (q a).kept w
  KeepsMinors-continue (err x) f w q = refl

  pub KeepsMinors-bind :
      {A B : Type 0} (m : Action F IP A) (f : A → Action F IP B)
      → KeepsMinors m
      → ((a : A) → KeepsMinors (f a))
      → KeepsMinors (m >>= f)
  unfolding ◌>>=◌
  KeepsMinors-bind m f p q = record {
    kept = λ w. KeepsMinors-continue (m w).0 f (m w).1 q ∙ p.kept w;
  }

  pub KeepsMinors-then :
      (m n : Action F IP (Unit {0})) → KeepsMinors m → KeepsMinors n → KeepsMinors (m >> n)
  unfolding ◌>>◌
  KeepsMinors-then m n p q = KeepsMinors-bind m (λ _. n) p (λ _. q)

  pub KeepsMinors-for_each :
      {A : Type 0} (xs : List A) (f : A → Action F IP (Unit {0}))
      → ((x : A) → KeepsMinors (f x))
      → KeepsMinors (for_each xs f)
  unfolding for_each
  KeepsMinors-for_each [] f p = KeepsMinors-pure tt
  KeepsMinors-for_each (x ∷ xs) f p =
      KeepsMinors-then (f x) (for_each xs f) (p x) (KeepsMinors-for_each xs f p)

  KeepsMinors-listed_then :
      {A : Type 0} (r : Result (Failure F IP) A) (f : A → Action F IP (Unit {0})) (w : World F IP)
      → ((x : A) → KeepsMinors (f x))
      → (listed_then r f w).1.minors ≡ w.minors
  KeepsMinors-listed_then (ok x) f w p = (p x).kept w
  KeepsMinors-listed_then (err e) f w p = refl

  pub KeepsMinors-if_listed :
      {A : Type 0} (m : Action F IP A) (f : A → Action F IP (Unit {0}))
      → KeepsMinors m
      → ((x : A) → KeepsMinors (f x))
      → KeepsMinors (if_listed m f)
  unfolding if_listed
  KeepsMinors-if_listed m f p q = record {
    kept = λ w. KeepsMinors-listed_then (m w).0 f (m w).1 q ∙ p.kept w;
  }

module _ {F IP : Type 0} (k : Kernel F IP) where
  pub KeepsMinors-send : (r : Request F IP) → KeepsMinors (send k r)
  unfolding send
  KeepsMinors-send r = record { kept = λ w. refl }

  pub KeepsMinors-send_add : (r : Request F IP) → KeepsMinors (send_add k r)
  unfolding send_add
  KeepsMinors-send_add r = record { kept = λ w. refl }

  pub KeepsMinors-list_filters : (r : Request F IP) → KeepsMinors (list_filters k r)
  unfolding list_filters
  KeepsMinors-list_filters r = record { kept = λ w. refl }

  pub KeepsMinors-list_qdiscs : KeepsMinors (list_qdiscs k)
  unfolding list_qdiscs
  KeepsMinors-list_qdiscs = record { kept = λ w. refl }

pub ruleset minor_rules = (
  KeepsMinors-pure, KeepsMinors-fail, KeepsMinors-ignore, KeepsMinors-if, KeepsMinors-bind,
  KeepsMinors-then, KeepsMinors-for_each, KeepsMinors-if_listed, KeepsMinors-send,
  KeepsMinors-send_add, KeepsMinors-list_filters, KeepsMinors-list_qdiscs,
)
