-- ===== src/Hook/Gate.antt =====
-- What a hook can stop.
use kubeport.Prelude.{
  ◌≡◌, refl, String, Bool, ◌&&◌, not, List, [], ◌∷◌, any, arith, Bool-cases, inl, inr,
  if◌then◌else◌, is_some,
}
use kubeport.Hook.{
  Event, RegisteredHook, Call, gate_call, on_event_call, manager_starting, same_event, subscribed,
  is_gate_hook, is_closed, gate, fire_gate, fire_one, fire,
}

module _ (succeeds : String → Event → Bool) where
  -- a subscribed shell hook that fails closed, and whose command for the start of the manager fails
  abbrev pub blocks : Event → RegisteredHook → Bool
  blocks e rh =
      same_event e.kind manager_starting
      && (subscribed rh e.kind
          && (is_gate_hook rh.hook.kind
              && (not (gate succeeds rh.hook rh.hook.kind e) && is_closed rh.fail_mode)))

  -- the hooks up to and with the first that blocks
  abbrev pub reached : Event → List RegisteredHook → List RegisteredHook
  reached e [] = []
  reached e (rh ∷ rest) = if blocks e rh then rh ∷ [] else rh ∷ reached e rest

  -- the function that is called of a hook: Gate of a shell hook when the manager starts, else OnEvent
  abbrev pub call_of : Event → RegisteredHook → Call
  call_of e rh =
      if same_event e.kind manager_starting && is_gate_hook rh.hook.kind
      then gate_call rh.hook.name
      else on_event_call rh.hook.name

  abbrev pub calls_of : Event → List RegisteredHook → List Call
  calls_of e [] = []
  calls_of e (rh ∷ rest) =
      if subscribed rh e.kind then call_of e rh ∷ calls_of e rest else calls_of e rest

  -- Fire reports an error exactly if some hook blocks: a subscribed shell hook that fails closed and
  -- whose command fails, on the event before the manager starts. It has then called the
  -- subscribed hooks up to the first that blocks, in their order, and else all subscribed hooks.
  pub fire-reached :
      (hooks : List RegisteredHook) (e : Event)
      → (is_some (fire succeeds hooks e).1 ≡ any (blocks e) hooks)
        × ((fire succeeds hooks e).0 ≡ calls_of e (reached e hooks))
  unfolding fire fire_one fire_gate
  fire-reached [] e = (refl, refl)
  fire-reached (rh ∷ rest) e = elim (Bool-cases (subscribed rh e.kind)) [
    | inr off ↦ ground (arith, off, fire-reached rest e)
    | inl on ↦ elim (Bool-cases (same_event e.kind manager_starting)) [
      | inr later ↦ ground (arith, on, later, fire-reached rest e)
      | inl now ↦ ground (arith, on, now, fire-reached rest e)
    ]
  ]
