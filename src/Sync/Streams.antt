-- ===== src/Sync/Streams.antt =====
-- The streams that exist, and how several of them are woken (syncapi/notifier/notifier.go). A pointer
-- to a stream is its index in the list of all streams that were ever made.
pub mod Sound
pub mod Woken
use dendrite.Base.{ℕ, zero, suc, List, [], ◌∷◌, Option, none, some, get_elem?}
use dendrite.Sync.Token.{StreamingToken}
use dendrite.Sync.UserStream.{Channels, UserDeviceStream, broadcast}

pub record Heap : Type 0 where
  pub streams : List UserDeviceStream
  pub channels : Channels

unfoldable pub write {ℓ} : {A : Type ℓ} → ℕ → A → List A → List A
write n new [] = []
write zero new (x ∷ xs) = new ∷ xs
write (suc n) new (x ∷ xs) = x ∷ write n new xs

abbrev pub written : ℕ → List UserDeviceStream → UserDeviceStream × Channels → Heap
written p l (t, cs) = record { streams = write p t l; channels = cs }

-- `stream.Broadcast`, or a panic. A pointer of the program always points to a stream.
unfoldable pub wake : StreamingToken → ℕ → Heap → Option Heap
wake new p h = elim (get_elem? h.streams p) [
  | none ↦ some h
  | some s ↦ elim (broadcast new s h.channels) [
    | none ↦ none
    | some r ↦ some (written p h.streams r)
  ]
]

unfoldable pub wake_all : StreamingToken → List ℕ → Heap → Option Heap
wake_all new [] h = some h
wake_all new (p ∷ rest) h = elim (wake new p h) [ none ↦ none | some g ↦ wake_all new rest g ]
