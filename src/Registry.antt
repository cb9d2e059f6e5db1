-- ===== src/Registry.antt =====
-- include/ServiceRegistry.h: the running services by name and by target. A call that throws is
-- `none`. The mutexes are left out: each operation holds one for its whole body. The methods of
-- include/abstract/Service.h that the registry and its clients ask are fields of a record.
pub mod Turns
pub mod Targets
use lapp_s.Common.{
  ℕ, zero, suc, ◌+◌, ◌<◌, Bool, true, false, Option, some, none, List, [], ◌∷◌, ◌++◌, ltb, ◌==◌,
  if◌then◌else◌, length, Dict, strings, lookup, assign, erase,
}

-- `ServiceProtocol`
pub data Protocol : Type 0 where
  raw lapps internal : Protocol

pub record Service : Type 0 where
  pub id : ℕ
  pub name : List ℕ
  pub target : List ℕ
  pub is_reactive : Bool
  pub protocol : Protocol
  pub max_msg_size : ℕ
  pub filter_ip : ℕ → Bool

-- `ServicesInstanceHolder`
pub record InstancesHolder : Type 0 where
  pub current : ℕ
  pub instances : List Service

abbrev pub no_instances : InstancesHolder
no_instances = record { current = 0; instances = [] }

unfoldable pub push_back : InstancesHolder → Service → InstancesHolder
push_back h s = record h { instances = h.instances ++ (s ∷ []) }

unfoldable pub has_next : InstancesHolder → Bool
has_next h = ltb 0 (length h.instances)

abbrev pub nth {ℓ} : {A : Type ℓ} → List A → ℕ → Option A
nth [] i = none
nth (a ∷ xs) zero = some a
nth (a ∷ xs) (suc i) = nth xs i

abbrev pub with_current : InstancesHolder → Option Service → Option (Service × InstancesHolder)
with_current h none = none
with_current h (some s) = some (s, h)

-- `next`: `current` is mutable.
unfoldable pub next : InstancesHolder → Option (Service × InstancesHolder)
unfolding has_next
next h =
    let moved = if ltb (h.current + 1) (length h.instances) then h.current + 1 else 0 in
    if has_next h then with_current (record h { current = moved }) (nth h.instances moved) else none

abbrev all_but_last : List Service → List Service
all_but_last [] = []
all_but_last (s ∷ []) = []
all_but_last (s ∷ t ∷ ts) = s ∷ all_but_last (t ∷ ts)

unfoldable pub pop_back : InstancesHolder → InstancesHolder × Bool
unfolding has_next
pop_back h =
    let left = all_but_last h.instances in
    if has_next h
    then (
      record { current = if ltb (length left) h.current then 0 else h.current; instances = left },
      true,
    )
    else (h, false)

abbrev find_instance : ℕ → List Service → Option Service
find_instance i [] = none
find_instance i (s ∷ ss) = if s.id == i then some s else find_instance i ss

-- `findById` of the holder
unfoldable pub instance_by_id : InstancesHolder → ℕ → Option Service
instance_by_id h i = find_instance i h.instances

pub record Registry : Type 0 where
  pub services : Dict (List ℕ) InstancesHolder
  pub targets : Dict (List ℕ) (List ℕ)

-- the constructor; `clear`
abbrev pub empty : Registry
empty = record { services = []; targets = [] }

abbrev pub or_new : Option InstancesHolder → InstancesHolder
or_new none = no_instances
or_new (some h) = h

-- `mServices[name]`
abbrev pub holder : Registry → List ℕ → InstancesHolder
holder r name = or_new (lookup strings name r.services)

unfoldable pub reg : Registry → Service → Registry
reg r s = record {
  services = assign strings s.name (push_back (holder r s.name) s) r.services;
  targets = if s.is_reactive then assign strings s.target s.name r.targets else r.targets;
}

-- The target comes from the second of two calls of `next`.
abbrev pub forget_target : Registry → List ℕ → Option (Service × InstancesHolder) → Option Registry
forget_target r name none = none
forget_target r name (some (s, h)) = some (record {
  services = erase strings name r.services;
  targets = erase strings s.target r.targets;
})

abbrev pub unreg_found : Registry → List ℕ → Option (Service × InstancesHolder) → Option Registry
unreg_found r name none = none
unreg_found r name (some (s, h)) =
    if s.is_reactive
    then forget_target r name (next h)
    else some (record r { services = erase strings name r.services })

abbrev pub unreg_holder : Registry → List ℕ → Option InstancesHolder → Option Registry
unreg_holder r name none = some r
unreg_holder r name (some h) = unreg_found r name (next h)

unfoldable pub unreg : Registry → List ℕ → Option Registry
unreg r name = unreg_holder r name (lookup strings name r.services)

-- The holder has moved on by one.
abbrev pub served :
    Registry → List ℕ → Option (Service × InstancesHolder) → Option (Service × Registry)
served r name none = none
served r name (some (s, h)) = some (s, record r { services = assign strings name h r.services })

abbrev pub next_of : Registry → List ℕ → Option InstancesHolder → Option (Service × Registry)
next_of r name none = none
next_of r name (some h) = served r name (next h)

unfoldable pub find_by_name : Registry → List ℕ → Option (Service × Registry)
find_by_name r name = next_of r name (lookup strings name r.services)

abbrev pub find_named : Registry → Option (List ℕ) → Option (Service × Registry)
find_named r none = none
find_named r (some name) = next_of r name (lookup strings name r.services)

unfoldable pub find_by_target : Registry → List ℕ → Option (Service × Registry)
find_by_target r target = find_named r (lookup strings target r.targets)

abbrev pub first_found : Option Service → Option Service → Option Service
first_found none o = o
first_found (some s) o = some s

abbrev find_anywhere : ℕ → Dict (List ℕ) InstancesHolder → Option Service
find_anywhere i [] = none
find_anywhere i ((name, h) ∷ d) = first_found (find_instance i h.instances) (find_anywhere i d)

unfoldable pub find_by_id : Registry → ℕ → Option Service
find_by_id r i = find_anywhere i r.services
