-- ===== src/Hook/Names.antt =====
-- Event names: what is printed is read back, and the migration of legacy names in
-- pkg/config/config.go agrees with the names that the hooks read themselves.
use kubeport.Prelude.{
  ◌≡◌, refl, ap, ◌∙◌, String, none, some, [], ◌∷◌, str_eq, str_eq_iff, All, Bool-cases, inl, inr,
}
use kubeport.Prelude.Table.{Table, lookup}
use kubeport.Config.Load.{migrate_name, legacy_event_names}
use kubeport.Hook.{
  EventType, event_name, parse_event_type, manager_starting, manager_stopped, forward_connected,
  forward_disconnected, forward_failed, forward_stopped, health_check_failed, service_added,
  service_removed, pod_terminating,
}

-- The printed name of every event type parses to that event type.
pub parse_event_type-event_name : (t : EventType) → parse_event_type (event_name t) ≡ some t
unfolding event_name parse_event_type lookup
parse_event_type-event_name manager_starting = refl
parse_event_type-event_name manager_stopped = refl
parse_event_type-event_name forward_connected = refl
parse_event_type-event_name forward_disconnected = refl
parse_event_type-event_name forward_failed = refl
parse_event_type-event_name forward_stopped = refl
parse_event_type-event_name health_check_failed = refl
parse_event_type-event_name service_added = refl
parse_event_type-event_name service_removed = refl
parse_event_type-event_name pod_terminating = refl

-- two names that parse alike
abbrev SameEvent : String × String → Type 0
SameEvent (old, new) = parse_event_type new ≡ parse_event_type old

abbrev renamed : Table String → String → String
renamed t s = elim (lookup s t) [ some new ↦ new | none ↦ s ]

renamed-SameEvent :
    (t : Table String) (s : String)
    → All SameEvent t
    → parse_event_type (renamed t s) ≡ parse_event_type s
unfolding lookup
renamed-SameEvent [] s h = refl
renamed-SameEvent ((old, new) ∷ rest) s h = elim (Bool-cases (str_eq old s)) [
  | inl same ↦ rw (same, renamed) (h.0 ∙ ap parse_event_type ((str_eq_iff old s).0 same))
  | inr other ↦ rw (other, renamed) (renamed-SameEvent rest s h.1)
]

legacy-SameEvent : All SameEvent legacy_event_names
unfolding parse_event_type lookup
legacy-SameEvent = (refl, (refl, (refl, (refl, (refl, (refl, (refl, (refl, (refl, tt)))))))))

-- The migration of a name when a configuration is loaded does not change the event type that the
-- hooks read from it, nor turns a name that they do not know into one that they do.
pub parse_event_type-migrate_name :
    (s : String) → parse_event_type (migrate_name s) ≡ parse_event_type s
unfolding migrate_name
parse_event_type-migrate_name s = renamed-SameEvent legacy_event_names s legacy-SameEvent
