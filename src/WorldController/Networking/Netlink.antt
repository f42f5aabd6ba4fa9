-- ===== src/WorldController/Networking/Netlink.antt =====
-- The requests of internal-components/world-controller/internal/networking/networking.go to the
-- kernel, and the methods of `Handler` as actions that send requests and may fail. The kernel is a
-- parameter: it answers from the requests so far.
pub mod Rules
pub use yass_simulator.Base.Result.{Result, ok, err}
use yass_simulator.Base.{
  ℕ, ◌+◌, ◌*◌, String, Bool, true, false, Option, none, some, List, [], ◌∷◌, ◌++◌, if◌then◌else◌,
}
use yass_simulator.Base.Int.{ℤ}
use yass_simulator.WorldController.Networking.Minors.{Addresses, Minors, get_cid}

pub data Protocol : Type 0 where
  tcp udp icmp : Protocol

-- netlink.Flower, as far as this component sets and reads it. A filter of the egress side has the
-- parent 1:0, and one of the ingress side HANDLE_INGRESS. The action of an ingress filter is
-- TC_ACT_SHOT (drop) or TC_ACT_PIPE.
pub record Flower (IP : Type 0) : Type 0 where
  pub ingress : Bool
  pub class_id : ℕ
  pub src_ip : Option IP
  pub dest_ip : Option IP
  pub protocol : Protocol
  pub port_min : ℕ
  pub port_max : ℕ
  pub drop : Bool

-- The type assertion `f.(*netlink.Flower)` fails for another kind of filter.
pub data Filter (IP : Type 0) : Type 0 where
  flower : Flower IP → Filter IP
  other_filter : Filter IP

pub record Qdisc : Type 0 where
  pub parent : ℕ
  pub handle : ℕ

pub data Request (F IP : Type 0) : Type 0 where
  -- the class of a handle with a rate, which is its ceiling too
  class_replace : ℕ → ℕ → Request F IP
  class_del : ℕ → Request F IP
  -- netem under a class: parent, handle, latency in microseconds, loss
  netem_replace : ℕ → ℕ → ℕ → F → Request F IP
  qdisc_list : Request F IP
  qdisc_del : Qdisc → Request F IP
  egress_list : Request F IP
  ingress_list : Request F IP
  filter_replace : Flower IP → Request F IP
  filter_add : Flower IP → Request F IP
  filter_del : Flower IP → Request F IP

-- `exists` is an error that says "file exists".
pub data Outcome : Type 0 where
  done exists refused : Outcome

-- The kernel: what it answers to a request after those before it. A list may be refused.
pub record Kernel (F IP : Type 0) : Type 0 where
  pub run : List (Request F IP) → Request F IP → Outcome
  pub filters : List (Request F IP) → Request F IP → Option (List (Filter IP))
  pub qdiscs : List (Request F IP) → Option (List Qdisc)

pub data Failure (F IP : Type 0) : Type 0 where
  bad_address : String → Failure F IP
  request_failed : Request F IP → Failure F IP

-- What the methods change: the minors, and the kernel through requests, oldest first.
pub record World (F IP : Type 0) : Type 0 where
  pub minors : Minors
  pub requests : List (Request F IP)

-- netlink.MakeHandle
unfoldable pub make_handle : ℕ → ℕ → ℕ
make_handle major minor = major * 65536 + minor

abbrev pub Action : Type 0 → Type 0 → Type 0 → Type 0
Action F IP A = World F IP → Result (Failure F IP) A × World F IP

module _ {F IP A B : Type 0} where
  abbrev pub continue : Result (Failure F IP) A → (A → Action F IP B) → Action F IP B
  continue (ok a) f w = f a w
  continue (err e) f w = (err e, w)

  infixl 10 ◌>>=◌ ◌>>◌
  unfoldable pub ◌>>=◌ : Action F IP A → (A → Action F IP B) → Action F IP B
  ◌>>=◌ m f w = let (r, w') = m w in continue r f w'

  unfoldable pub ◌>>◌ : Action F IP A → Action F IP B → Action F IP B
  unfolding ◌>>=◌
  m >> k = m >>= λ _. k

module _ {F IP A : Type 0} where
  unfoldable pub pure : A → Action F IP A
  pure a w = (ok a, w)

  unfoldable pub fail : Failure F IP → Action F IP A
  fail e w = (err e, w)

  -- `_ = m`: the error is dropped, what was done is not.
  unfoldable pub ignore : Action F IP A → Action F IP (Unit {0})
  ignore m w = let (r, w') = m w in (ok tt, w')

module _ {F IP : Type 0} where
  -- a loop that runs an action for each element, and ends with the first error
  unfoldable pub for_each {ℓ} :
      {A : Type ℓ} → List A → (A → Action F IP (Unit {0})) → Action F IP (Unit {0})
  for_each [] f = pure tt
  for_each (x ∷ xs) f = f x >> for_each xs f

-- A list that the kernel gave, or its error.
listed : {F IP A : Type 0} → Option A → Request F IP → Result (Failure F IP) A
listed none r = err (request_failed r)
listed (some xs) r = ok xs

module _ {F IP : Type 0} (k : Kernel F IP) where
  sent : Request F IP → World F IP → World F IP
  sent r w = record w { requests = w.requests ++ r ∷ [] }

  accepted : Outcome → Request F IP → Result (Failure F IP) (Unit {0})
  accepted done r = ok tt
  accepted exists r = err (request_failed r)
  accepted refused r = err (request_failed r)

  -- `err != nil && !isEEXIST(err)`
  accepted_or_exists : Outcome → Request F IP → Result (Failure F IP) (Unit {0})
  accepted_or_exists done r = ok tt
  accepted_or_exists exists r = ok tt
  accepted_or_exists refused r = err (request_failed r)

  unfoldable pub send : Request F IP → Action F IP (Unit {0})
  unfolding sent accepted
  send r w = (accepted (k.run w.requests r) r, sent r w)

  unfoldable pub send_add : Request F IP → Action F IP (Unit {0})
  unfolding sent accepted_or_exists
  send_add r w = (accepted_or_exists (k.run w.requests r) r, sent r w)

  unfoldable pub list_filters : Request F IP → Action F IP (List (Filter IP))
  unfolding sent listed
  list_filters r w = (listed (k.filters w.requests r) r, sent r w)

  unfoldable pub list_qdiscs : Action F IP (List Qdisc)
  unfolding sent listed
  list_qdiscs w = (listed (k.qdiscs w.requests) qdisc_list, sent qdisc_list w)

-- `if xs, err := m; err == nil { f(xs) }`
module _ {F IP A : Type 0} where
  abbrev pub listed_then :
      Result (Failure F IP) A → (A → Action F IP (Unit {0})) → Action F IP (Unit {0})
  listed_then (ok xs) f w = f xs w
  listed_then (err e) f w = (ok tt, w)

  unfoldable pub if_listed : Action F IP A → (A → Action F IP (Unit {0})) → Action F IP (Unit {0})
  if_listed m f w = let (r, w') = m w in listed_then r f w'
