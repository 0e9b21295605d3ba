-- ===== src/Engine/Calls.antt =====
-- internal/engine/engine.go: sequences of calls on the registry of models.
use flockd.Base.{ℕ, ◌≡◌, ◌⊎◌, refl, inl, true, some}
use flockd.Base.Dict.{lookup}
use flockd.Engine.{Engine, chat_model, new}
use flockd.Engine.World.{RegistryStep}
use flockd.Engine.Listed.{Listed, Fits, Step-Listed}

-- The engines that calls lead to, each of which fits what the daemon asks.
pub data Called : Engine → Type 0 where
  none_yet : Called new
  after : {e e' : Engine} → Called e → (st : RegistryStep e e') → Fits st → Called e'

Called-Listed : {e : Engine} → Called e → Listed e
unfolding new lookup
Called-Listed none_yet = record {
  distinct = tt;
  named = refl;
  below = λ k m h. cc;
  default = inl refl;
}
Called-Listed (after c st f) = Step-Listed (Called-Listed c) st f

-- After any calls on the registry, where every model that is registered has an id that is not empty and
-- is not registered over a loaded one of its id, and where a replacement of a loaded model is a chat model
-- exactly when that one is: there is no default, or the default is a loaded chat model. The registry does
-- not check these conditions.
pub default_loaded :
    {e : Engine}
    → Called e
    → (e.default_id ≡ "")
      ⊎ ((m : ℕ) × (lookup e.default_id e.models ≡ some m) × (chat_model (e.entries m).spec ≡ true))
default_loaded c = (Called-Listed c).default
