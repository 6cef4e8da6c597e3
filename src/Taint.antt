-- ===== src/Taint.antt =====
-- internal/core/tainted.go: a chat that was handed the screen may not act on the device. The guard
-- and the mark are called in this order for each call of a capability (internal/core/mcp.go).
pub mod Order
use atenea.Prelude.{Bool, true, false, not, ◌&&◌, ◌||◌, List, [], ◌∷◌, if◌then◌else◌}
use atenea.Prelude.Str.{Str, codes, str_eq}
use atenea.Contract.Capability.{Capability, causes, effect_device, effect_write, effect_external}

pub record Taint : Type 0 where
  pub read : Bool
  pub permitted : Bool

unfoldable pub observing : Str → Bool
observing capability =
    str_eq capability (codes "desktop.inspect")
    || str_eq capability (codes "desktop.screenshot")
    || str_eq capability (codes "android.inspect")
    || str_eq capability (codes "android.screenshot")

unfoldable pub acting : Capability → Bool
acting c =
    if not (causes effect_device c.effects)
    then false
    else causes effect_write c.effects || causes effect_external c.effects

-- `true` is the `permission_denied` failure.
unfoldable pub refuse_if_tainted : Taint → Capability → Bool
refuse_if_tainted t c = if t.permitted || not (acting c) || not t.read then false else true

unfoldable pub note : Taint → Str → Taint
note t capability =
    if observing capability then record { read = true; permitted = t.permitted } else t

-- The chat's state before its first call.
unfoldable pub opened : Bool → Taint
opened look_then_act = record { read = false; permitted = look_then_act }

-- The calls of one chat that pass the guard, in order; a call that passes is marked at once.
unfoldable pub passed : Taint → List Capability → List Capability
passed t [] = []
passed t (c ∷ cs) = elim (refuse_if_tainted t c) [
  | true ↦ passed t cs
  | false ↦ c ∷ passed (note t c.id) cs
]
