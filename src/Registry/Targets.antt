-- ===== src/Registry/Targets.antt =====
-- What clients of `ServiceRegistry` of include/ServiceRegistry.h find.
use lapp_s.Common.{
  ℕ, zero, suc, ◌<◌, true, false, Option, some, none, List, [], ◌∷◌, ◌++◌, ◌≡◌, refl, ap, ◌∙◌,
  arith, length, length-append, Bool-cases, ◌⊎◌, inl, inr, Dict, strings, lookup, assign, erase,
  Unique, assign-Unique, erase-Unique, lookup-assign_self, lookup-assign_other, lookup-erase_self,
  lookup-erase_other,
}
use lapp_s.Registry.{
  Service, InstancesHolder, Registry, or_new, push_back, has_next, nth, next, holder, reg, unreg,
  find_by_name, find_by_target, unreg_holder, unreg_found, forget_target, next_of, find_named,
  empty,
}
use lapp_s.Registry.Turns.{turn, next-InRange}

abbrev pub AllNamed : List ℕ → List Service → Type 0
AllNamed name [] = Unit
AllNamed name (s ∷ ss) = (s.name ≡ name) × AllNamed name ss

AllNamed-append :
    (name : List ℕ) (ss : List Service) (s : Service)
    → AllNamed name ss
    → s.name ≡ name
    → AllNamed name (ss ++ (s ∷ []))
AllNamed-append name [] s all e = (e, tt)
AllNamed-append name (t ∷ ss) s (first, all) e = (first, AllNamed-append name ss s all e)

AllNamed-nth :
    (name : List ℕ) (ss : List Service) (i : ℕ) (s : Service)
    → AllNamed name ss
    → nth ss i ≡ some s
    → s.name ≡ name
AllNamed-nth name [] i s all e = absurd (ground arith)
AllNamed-nth name (t ∷ ss) zero s (first, all) e = ground arith
AllNamed-nth name (t ∷ ss) (suc i) s (first, all) e = AllNamed-nth name ss i s all e

-- A name has one instance at least, and all of its instances have that name.
abbrev pub Holds : List ℕ → Option InstancesHolder → Type 0
Holds name none = Unit
Holds name (some h) = (0 < length h.instances) × AllNamed name h.instances

-- A name and a target stand in the maps at most once.
pub record IsValid (r : Registry) : Type 0 where
  pub services_unique : Unique strings r.services
  pub targets_unique : Unique strings r.targets
  pub holds : (name : List ℕ) → Holds name (lookup strings name r.services)

pub empty-IsValid : IsValid empty
unfolding lookup
empty-IsValid = record { services_unique = tt; targets_unique = tt; holds = λ name. tt }

pushed :
    (name : List ℕ) (s : Service) (o : Option InstancesHolder)
    → Holds name o
    → s.name ≡ name
    → Holds name (some (push_back (or_new o) s))
unfolding push_back
pushed name s none h e = (omega arith, (e, tt))
pushed name s (some h) (some_left, all) e =
    (omega (arith, length-append h.instances (s ∷ [])), AllNamed-append name h.instances s all e)

replaced :
    (name key : List ℕ) (h : InstancesHolder) (d : Dict (List ℕ) InstancesHolder)
    → Holds key (some h)
    → Holds name (lookup strings name d)
    → Holds name (lookup strings name (assign strings key h d))
replaced name key h d new old = elim (Bool-cases (strings.same name key)) [
  | inl here ↦
      let e = strings.sound name key here in rw e (rw (lookup-assign_self strings key h d) new)
  | inr other ↦ rw (lookup-assign_other strings name key h d other) old
]

-- Registration keeps the registry valid: each name and target stands in its map once, and a name
-- has one instance at least, all of that name.
pub reg-IsValid : (r : Registry) (s : Service) → IsValid r → IsValid (reg r s)
unfolding reg
reg-IsValid r s ok = record {
  services_unique =
      assign-Unique strings s.name (push_back (holder r s.name) s) r.services ok.services_unique;
  targets_unique = elim (Bool-cases s.is_reactive) [
    | inl reactive ↦ rw reactive (assign-Unique strings s.target s.name r.targets ok.targets_unique)
    | inr standalone ↦ rw standalone ok.targets_unique
  ];
  holds = λ name.
      replaced name s.name (push_back (holder r s.name) s) r.services
        (pushed s.name s (lookup strings s.name r.services) (ok.holds s.name) refl) (ok.holds name);
}

erased :
    (name key : List ℕ) (d : Dict (List ℕ) InstancesHolder)
    → Unique strings d
    → Holds name (lookup strings name d)
    → Holds name (lookup strings name (erase strings key d))
erased name key d unique old = elim (Bool-cases (strings.same name key)) [
  | inl here ↦
      let e = strings.sound name key here in rw e (rw (lookup-erase_self strings key d unique) tt)
  | inr other ↦ rw (lookup-erase_other strings name key d other) old
]

-- What `unreg` leaves of a name that it finds: no service, and the targets but for one.
abbrev Without : Registry → List ℕ → Registry → Type 0
Without r name q =
    (q.services ≡ erase strings name r.services)
    × ((q.targets ≡ r.targets) ⊎ ((t : List ℕ) × (q.targets ≡ erase strings t r.targets)))

forget_target-Without :
    (r q : Registry) (name : List ℕ) (o : Option (Service × InstancesHolder))
    → forget_target r name o ≡ some q
    → Without r name q
forget_target-Without r q name none e = absurd (ground arith)
forget_target-Without r q name (some (s, h)) e = (ground arith, inr (s.target, ground arith))

unreg_found-Without :
    (r q : Registry) (name : List ℕ) (o : Option (Service × InstancesHolder))
    → unreg_found r name o ≡ some q
    → Without r name q
unreg_found-Without r q name none e = absurd (ground arith)
unreg_found-Without r q name (some (s, h)) e = elim (Bool-cases s.is_reactive) [
  | inl reactive ↦ forget_target-Without r q name (next h) (rw reactive at e)
  | inr standalone ↦ let e' = rw standalone at e in (ground arith, inl (ground arith))
]

unreg_holder-cases :
    (r q : Registry) (name : List ℕ) (o : Option InstancesHolder)
    → unreg_holder r name o ≡ some q
    → ((o ≡ none) × (q ≡ r)) ⊎ Without r name q
unreg_holder-cases r q name none e = inl (refl, ground arith)
unreg_holder-cases r q name (some h) e = inr (unreg_found-Without r q name (next h) e)

Without-IsValid : (r q : Registry) (name : List ℕ) → IsValid r → Without r name q → IsValid q
Without-IsValid r q name ok (gone, targets) = record {
  services_unique = rw gone (erase-Unique strings name r.services ok.services_unique);
  targets_unique = elim targets [
    | inl same ↦ rw same ok.targets_unique
    | inr (t, less) ↦ rw less (erase-Unique strings t r.targets ok.targets_unique)
  ];
  holds = λ other. rw gone (erased other name r.services ok.services_unique (ok.holds other));
}

-- Where unreg returns from a valid registry, the registry is valid as before, and the name has no
-- service.
pub unreg-IsValid :
    (r q : Registry) (name : List ℕ)
    → IsValid r
    → unreg r name ≡ some q
    → IsValid q × (find_by_name q name ≡ none)
unfolding unreg find_by_name
unreg-IsValid r q name ok e =
    elim (unreg_holder-cases r q name (lookup strings name r.services) e) [
      | inl (absent, same) ↦ rw same (ok, rw absent refl)
      | inr left ↦ (
        Without-IsValid r q name ok left,
        rw left.0 (rw (lookup-erase_self strings name r.services ok.services_unique) refl),
      )
    ]

-- A name that is registered has a service of that name, and the registry stays valid.
next_of-finds :
    (r : Registry) (name : List ℕ) (h : InstancesHolder)
    → IsValid r
    → lookup strings name r.services ≡ some h
    → (s : Service) × (q : Registry) × (next_of r name (lookup strings name r.services)
        ≡ some (s, q))
      × (s.name ≡ name)
      × IsValid q
next_of-finds r name h ok here =
    let (some_left, named) : Holds name (some h) = rw here at (ok.holds name) in
    let (s, at, out, inside) = next-InRange h some_left in
    let h' = record h { current = turn h } in
    let q = record r { services = assign strings name h' r.services } in
    (
      s,
      q,
      rw here (rw out refl),
      AllNamed-nth name h.instances (turn h) s named at,
      record {
        services_unique = assign-Unique strings name h' r.services ok.services_unique;
        targets_unique = ok.targets_unique;
        holds = λ other. replaced other name h' r.services (some_left, named) (ok.holds other);
      },
    )

-- After the registration of a service with a target in a valid registry, that target leads to a
-- service of its name, and the registry stays valid.
pub reg-find_by_target :
    (r : Registry) (s : Service)
    → IsValid r
    → s.is_reactive ≡ true
    → (t : Service) × (q : Registry) × (find_by_target (reg r s) s.target ≡ some (t, q))
      × (t.name ≡ s.name)
      × IsValid q
unfolding find_by_target reg
reg-find_by_target r s ok reactive =
    let h = push_back (holder r s.name) s in
    let (t, q, out, named, valid) =
      next_of-finds (reg r s) s.name h (reg-IsValid r s ok)
        (lookup-assign_self strings s.name h r.services) in
    let known : lookup strings s.target (reg r s).targets ≡ some s.name =
      rw reactive (lookup-assign_self strings s.target s.name r.targets) in
    (t, q, ap (find_named (reg r s)) known ∙ out, named, valid)

-- A reactive service with a given name and target.
abbrev pub reactive : Service → List ℕ → List ℕ → Service
reactive s name target = record s { name = name; target = target; is_reactive = true }

module _ (a b : Service) (x y target : List ℕ) (apart : strings.same y x ≡ false) where
  abbrev first : Service
  first = reactive a x target

  abbrev second : Service
  second = reactive b y target

  both_registered : reg (reg empty first) second ≡ record {
    services =
        (x, record { current = 0; instances = first ∷ [] })
        ∷ (y, record { current = 0; instances = second ∷ [] })
        ∷ [];
    targets = (target, y) ∷ [];
  }
  unfolding reg lookup assign push_back
  both_registered = rw apart (rw (strings.reflexive target) refl)

  -- Two services of different names with one target, registered one after the other: once the
  -- first is unregistered, the target leads nowhere, although the second one is registered under
  -- it and is found by its name.
  pub unreg-shared_target :
      (q : Registry) × (unreg (reg (reg empty first) second) x ≡ some q)
      × (find_by_target q target ≡ none)
      × (s : Service) × (q' : Registry) × (find_by_name q y ≡ some (s, q'))
  unfolding unreg find_by_target find_by_name lookup assign erase next has_next
  unreg-shared_target =
      let q : Registry = record {
        services = (y, record { current = 0; instances = second ∷ [] }) ∷ [];
        targets = [];
      } in
      (
        q,
        rw both_registered
            (rw (strings.reflexive x) (rw (strings.reflexive target, strings.reflexive x) refl)),
        refl,
        second,
        q,
        rw (strings.reflexive y) (rw (strings.reflexive y) refl),
      )
