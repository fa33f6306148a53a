-- ===== src/Hook/Steps.antt =====
-- What can happen to an editor of src/client/hooks/useCollaborativeDoc.ts.
use sync_engine.Base.{ℕ, Option, List, [], ◌∷◌}
use sync_engine.Base.Text.{Text}
use sync_engine.Hook.{
  Hook, Draw, ServerMessage, on_open, on_socket_close, handle_server_message, hook_insert,
  hook_delete, hook_batch_edit, send_cursor,
}

pub data HookEvent : Type 0 where
  opens : HookEvent
  closes : ℕ → HookEvent
  receives : ServerMessage → HookEvent
  types : ℕ → Text → Draw → HookEvent
  erases : ℕ → Draw → HookEvent
  edits : Text → Text → (ℕ → Draw) → HookEvent
  points : Option ℕ → HookEvent

unfoldable pub hook_step : HookEvent → Hook → Hook
hook_step opens h = on_open h
hook_step (closes code) h = on_socket_close code h
hook_step (receives m) h = handle_server_message m h
hook_step (types i char w) h = hook_insert i char w h
hook_step (erases i w) h = hook_delete i w h
hook_step (edits before after w) h = hook_batch_edit before after w h
hook_step (points i) h = send_cursor i h

unfoldable pub hook_run : List HookEvent → Hook → Hook
hook_run [] h = h
hook_run (e ∷ events) h = hook_run events (hook_step e h)
