-- ===== src/Tests/Services.antt =====
-- Services in the registry.
use lapp_s.Common.{
  ℕ, ◌<◌, true, false, some, none, [], ◌∷◌, ◌≡◌, refl, arith, lookup, assign, erase, strings,
}
use lapp_s.Registry.{
  Service, Protocol, InstancesHolder, Registry, nth, next, reg, unreg, find_by_name, find_by_target,
  push_back,
}
use lapp_s.Registry
use lapp_s.Registry.Turns.{calls, next_serves_all}
use lapp_s.Registry.Targets.{
  IsValid, empty-IsValid, reg-IsValid, unreg-IsValid, reg-find_by_target, reactive,
  unreg-shared_target,
}

abbrev echo : Service
echo = record {
  id = 1;
  name = b'e' ∷ [];
  target = b'/' ∷ b'e' ∷ [];
  is_reactive = true;
  protocol = Protocol.raw;
  max_msg_size = 1000;
  filter_ip = λ address. false;
}

abbrev two_instances : InstancesHolder
two_instances = record { current = 1; instances = echo ∷ record echo { id = 2 } ∷ [] }

next_serves_all_example :
    (k : ℕ) × (k < 2)
    × (s : Service) × (nth two_instances.instances 1 ≡ some s)
    × (calls k two_instances ≡ some (s, record two_instances { current = 1 }))
next_serves_all_example = next_serves_all two_instances 1 (omega arith) (omega arith)

reg-IsValid_example : IsValid (reg Registry.empty echo)
reg-IsValid_example = reg-IsValid Registry.empty echo empty-IsValid

abbrev one_service : Registry
one_service = reg Registry.empty echo

unreg-IsValid_example : IsValid Registry.empty × (find_by_name Registry.empty (b'e' ∷ []) ≡ none)
unfolding reg unreg Registry.next Registry.has_next push_back lookup assign erase strings
unreg-IsValid_example =
    unreg-IsValid one_service Registry.empty (b'e' ∷ [])
      (reg-IsValid Registry.empty echo empty-IsValid) refl

reg-find_by_target_example :
    (t : Service) × (q : Registry) × (find_by_target one_service (b'/' ∷ b'e' ∷ []) ≡ some (t, q))
    × (t.name ≡ b'e' ∷ [])
    × IsValid q
reg-find_by_target_example = reg-find_by_target Registry.empty echo empty-IsValid refl

unreg-shared_target_example :
    (q : Registry) × (unreg
        (reg
          (reg Registry.empty (reactive echo (b'e' ∷ []) (b'/' ∷ [])))
          (reactive echo (b'f' ∷ []) (b'/' ∷ [])))
        (b'e' ∷ [])
      ≡ some q)
    × (find_by_target q (b'/' ∷ []) ≡ none)
    × (s : Service) × (q' : Registry) × (find_by_name q (b'f' ∷ []) ≡ some (s, q'))
unfolding strings
unreg-shared_target_example = unreg-shared_target echo echo (b'e' ∷ []) (b'f' ∷ []) (b'/' ∷ []) refl
