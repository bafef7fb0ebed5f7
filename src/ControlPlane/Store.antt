-- ===== src/ControlPlane/Store.antt =====
-- What the in-memory control plane promises: a generation and at most one configuration for each
-- key, as functions, and the calls over them.
use kubetraffic.Prelude.{
  ◌≡◌, refl, ap, ◌∙◌, inl, inr, Option, none, some, List, [], ◌∷◌, arith, if◌then◌else◌,
  Option-cases, or_else, Str, str_eq, Dict, lookup, insert, lookup-erase, lookup-insert,
}
use kubetraffic.Prelude.Int.{ℤ, pos, ◌+ℤ◌, wrap64}
use kubetraffic.Api.{TrafficRoute, NamespacedName}
use kubetraffic.Discovery.Reads.{Fallible, ok, err}
use kubetraffic.ControlPlane.{build_route_spec, pass_through_config}
use kubetraffic.ControlPlane.Wire.{RouteConfig}
use kubetraffic.ControlPlane.Fake.{Fake, key, named, register_route, delete_route, get_route_config}

pub record Store : Type 0 where
  pub generation : Str → ℤ
  pub config : Str → Option RouteConfig

-- The function that differs at one key.
abbrev pub update {ℓ} : {V : Type ℓ} → Str → V → (Str → V) → Str → V
update k v g j = if str_eq k j then v else g j

-- Registering raises the key's generation and makes the route's own weights its configuration.
unfoldable pub register_in : TrafficRoute → Store → RouteConfig × Store
register_in tr s =
    let k = key (named tr) in
    let generation = wrap64 (s.generation k +ℤ pos 1) in
    let cfg = pass_through_config (build_route_spec tr) generation in
    (
      cfg,
      record {
        generation = update k generation s.generation;
        config = update k (some cfg) s.config;
      },
    )

-- Deleting keeps the generation, so that a route that returns does not repeat one.
unfoldable pub delete_in : NamespacedName → Store → Store
delete_in ref s = record s { config = update (key ref) none s.config }

pub data Op : Type 0 where
  register : TrafficRoute → Op
  delete : NamespacedName → Op
  get : NamespacedName → Op

-- A reply: the configuration of a registration or a poll, or that of a deletion.
pub data Reply : Type 0 where
  configured : Fallible (Option RouteConfig) → Reply
  gone : Option Str → Reply

-- The errors that a test may inject, which no call changes.
pub record Faults : Type 0 where
  pub register_err : Option Str
  pub delete_err : Option Str
  pub get_err : Option Str

unfoldable pub step_store : Faults → Op → Store → Reply × Store
step_store e (register tr) s = elim e.register_err [
  | some t ↦ (configured (err t), s)
  | none ↦ let (cfg, s') = register_in tr s in (configured (ok (some cfg)), s')
]
step_store e (delete ref) s = elim e.delete_err [
  | some t ↦ (gone (some t), s)
  | none ↦ (gone none, delete_in ref s)
]
step_store e (get ref) s = elim e.get_err [
  | some t ↦ (configured (err t), s)
  | none ↦ (configured (ok (s.config (key ref))), s)
]

abbrev returned : Fallible RouteConfig → Reply
returned (ok cfg) = configured (ok (some cfg))
returned (err t) = configured (err t)

unfoldable pub step_fake : Op → Fake → Reply × Fake
step_fake (register tr) f = let (r, f') = register_route tr f in (returned r, f')
step_fake (delete ref) f = let (r, f') = delete_route ref f in (gone r, f')
step_fake (get ref) f = (configured (get_route_config ref f), f)

pub run_store : Faults → List Op → Store → List Reply × Store
unfolding step_store
run_store e [] s = ([], s)
run_store e (o ∷ rest) s =
    let (r, s') = step_store e o s in let (rs, s'') = run_store e rest s' in (r ∷ rs, s'')

pub run_fake : List Op → Fake → List Reply × Fake
unfolding step_fake
run_fake [] f = ([], f)
run_fake (o ∷ rest) f =
    let (r, f') = step_fake o f in let (rs, f'') = run_fake rest f' in (r ∷ rs, f'')

-- The view of the state that forgets the order of its maps and what was registered before.
abbrev pub view : Fake → Store
view f = record {
  generation = λ k. or_else (lookup k f.generations) (pos 0);
  config = λ k. lookup k f.configs;
}

abbrev pub faults : Fake → Faults
faults f = record { register_err = f.register_err; delete_err = f.delete_err; get_err = f.get_err }

Store-ext :
    (s t : Store)
    → ((k : Str) → s.generation k ≡ t.generation k)
    → ((k : Str) → s.config k ≡ t.config k)
    → s ≡ t
Store-ext s t g c = λ i. record { generation = λ k. g k i; config = λ k. c k i }

-- One call, on either.
record Agrees (o : Op) (f : Fake) : Type 0 where
  reply : (step_fake o f).0 ≡ (step_store (faults f) o (view f)).0
  state : view (step_fake o f).1 ≡ (step_store (faults f) o (view f)).1
  same_faults : faults (step_fake o f).1 ≡ faults f

lookup-insert_or :
    (k j : Str) (v d : ℤ) (m : Dict ℤ)
    → or_else (lookup j (insert k v m)) d ≡ update k v (λ i. or_else (lookup i m) d) j
lookup-insert_or k j v d m = rw (lookup-insert k j v m) (ground arith)

register-Agrees : (tr : TrafficRoute) (f : Fake) → Agrees (register tr) f
unfolding step_fake step_store register_in register_route
register-Agrees tr f = elim (Option-cases f.register_err) [
  | inr (t, e) ↦ record { reply = ground arith; state = ground arith; same_faults = ground arith }
  | inl e ↦ record {
    reply = ground arith;
    state =
        rw (e, register_route)
          (Store-ext _ _ (λ k. lookup-insert_or (key (named tr)) k _ (pos 0) f.generations)
            (λ k. lookup-insert (key (named tr)) k _ f.configs));
    same_faults = ground arith;
  }
]

delete-Agrees : (ref : NamespacedName) (f : Fake) → Agrees (delete ref) f
unfolding step_fake step_store delete_in delete_route
delete-Agrees ref f = elim (Option-cases f.delete_err) [
  | inr (t, e) ↦ record { reply = ground arith; state = ground arith; same_faults = ground arith }
  | inl e ↦ record {
    reply = ground arith;
    state =
        rw (e, delete_route) (Store-ext _ _ (λ k. refl) (λ k. lookup-erase (key ref) k f.configs));
    same_faults = ground arith;
  }
]

get-Agrees : (ref : NamespacedName) (f : Fake) → Agrees (get ref) f
unfolding step_fake step_store get_route_config
get-Agrees ref f = elim (Option-cases f.get_err) [
  | inr (t, e) ↦ record { reply = ground arith; state = ground arith; same_faults = ground arith }
  | inl e ↦ record { reply = ground arith; state = ground arith; same_faults = ground arith }
]

step-Agrees : (o : Op) (f : Fake) → Agrees o f
step-Agrees (register tr) f = register-Agrees tr f
step-Agrees (delete ref) f = delete-Agrees ref f
step-Agrees (get ref) f = get-Agrees ref f

-- Over any sequence of registrations, deletions and polls, the in-memory control plane gives the
-- replies of the abstract store, and its state is seen as the store's state.
pub run_fake_lem :
    (ops : List Op) (f : Fake)
    → ((run_fake ops f).0 ≡ (run_store (faults f) ops (view f)).0)
      × (view (run_fake ops f).1 ≡ (run_store (faults f) ops (view f)).1)
unfolding run_fake run_store
run_fake_lem [] f = (refl, refl)
run_fake_lem (o ∷ rest) f =
    let a = step-Agrees o f in
    let (replies, state) = run_fake_lem rest (step_fake o f).1 in
    let later : (run_store (faults (step_fake o f).1) rest (view (step_fake o f).1))
        ≡ run_store (faults f) rest (step_store (faults f) o (view f)).1 =
      (λ i. run_store (a.same_faults i) rest (a.state i)) in
    ((λ i. a.reply i ∷ (replies ∙ ap (λ p. p.0) later) i), state ∙ ap (λ p. p.1) later)
