-- ===== src/Actor/Staleness.antt =====
-- rust/engine/crates/app_core/src/engine/actor/operation.rs and state/operations.rs: which
-- generations are past, and under which an operation is launched.
pub mod Steps
pub mod Superseded
use mathlib.Core.Path.{subst}
use media_app.Prelude.{
  ℕ, ◌+◌, ◌<◌, ◌≤◌, ◌≡◌, refl, sym, ap, ◌∙◌, Bool, true, false, not, ◌||◌, Option, none, some, List,
  [], ◌∷◌, Bool-cases, Option-cases, inl, inr, arith, if◌then◌else◌, u64_max, saturating_add,
}
use media_app.Model.Auth.{AuthState, same_auth_state}
use media_app.Model.Command.{EngineCommandType}
use media_app.Actor.Core.{EngineCore}
use media_app.Actor.Operation.{
  DomainGenerations, EngineOperation, EngineOperationCompletion, OperationGeneration, is_current,
}
use media_app.Actor.State.{ActorState}
use media_app.Actor.Generations.{bump_identity_generations}
use media_app.Actor.Prepare.{
  allocate_operation, prepare_library_page, prepare_library_continuation, prepare_library_mutation,
  prepare_operation,
}

-- Every generation is a `u64`.
abbrev pub AreWords : DomainGenerations → Type 0
AreWords g =
    (g.account_generation ≤ u64_max)
    × (g.search_generation ≤ u64_max)
    × (g.playlist_generation ≤ u64_max)
    × (g.history_generation ≤ u64_max)
    × (g.library_generation ≤ u64_max)
    × (g.playback_generation ≤ u64_max)

abbrev pub IsBefore : DomainGenerations → DomainGenerations → Type 0
IsBefore g h =
    (g.account_generation ≤ h.account_generation)
    × (g.search_generation ≤ h.search_generation)
    × (g.playlist_generation ≤ h.playlist_generation)
    × (g.history_generation ≤ h.history_generation)
    × (g.library_generation ≤ h.library_generation)
    × (g.playback_generation ≤ h.playback_generation)

-- The generation is one that its domain has left behind.
unfoldable pub IsPast : DomainGenerations → OperationGeneration → Type 0
IsPast g (OperationGeneration.account n) = n < g.account_generation
IsPast g (OperationGeneration.search n) = n < g.search_generation
IsPast g (OperationGeneration.playlist n) = n < g.playlist_generation
IsPast g (OperationGeneration.history n) = n < g.history_generation
IsPast g (OperationGeneration.library n) = n < g.library_generation
IsPast g (OperationGeneration.playback n) = n < g.playback_generation

-- Generations that stay `u64`s and do not fall.
abbrev pub Grows : DomainGenerations → DomainGenerations → Type 0
Grows g h = AreWords h × IsBefore g h

unfoldable pub number : OperationGeneration → ℕ
number (OperationGeneration.account n) = n
number (OperationGeneration.search n) = n
number (OperationGeneration.playlist n) = n
number (OperationGeneration.history n) = n
number (OperationGeneration.library n) = n
number (OperationGeneration.playback n) = n

pub IsPast-IsBefore :
    (g h : DomainGenerations) (o : OperationGeneration) → IsBefore g h → IsPast g o → IsPast h o
unfolding IsPast
IsPast-IsBefore g h o b p = ground arith

pub IsPast-is_current :
    (g : DomainGenerations) (o : OperationGeneration) → IsPast g o → is_current g o ≡ false
unfolding IsPast is_current
IsPast-is_current g o p = ground arith

-- The change of identity leaves behind what was current.
pub bump-IsPast :
    (g : DomainGenerations) (o : OperationGeneration)
    → is_current g o ≡ true
    → number o < u64_max
    → IsPast (bump_identity_generations g) o
unfolding IsPast is_current bump_identity_generations number
bump-IsPast g o c h = ground arith

module _ {E : Type 0} (core : EngineCore E) where
  -- An operation is current where it is launched.
  pub prepare-is_current :
      (id : ℕ) (c : EngineCommandType) (a : ActorState E) {x : EngineOperation × ActorState E}
      → prepare_operation core id c a ≡ some x
      → (is_current x.1.generations x.0.generation ≡ true)
  unfolding prepare_operation allocate_operation prepare_library_page prepare_library_continuation
      prepare_library_mutation is_current
  prepare-is_current id c a h = ground arith

  pub prepare-Grows :
      (id : ℕ) (c : EngineCommandType) (a : ActorState E) {x : EngineOperation × ActorState E}
      → AreWords a.generations
      → prepare_operation core id c a ≡ some x
      → Grows a.generations x.1.generations
  unfolding prepare_operation allocate_operation prepare_library_page prepare_library_continuation
      prepare_library_mutation
  prepare-Grows id c a r h = ground arith
