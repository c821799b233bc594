-- ===== src/Sync/Noise/Chunks.antt =====
-- The chunks of a payload.
use bushido.Prelude.{
  ℕ, zero, suc, ◌+◌, ◌*◌, ◌≤◌, ◌<◌, ◌≡◌, refl, ap, ◌∙◌, [], ◌∷◌, ◌++◌, Bytes, length, All, take,
  drop, take-append-drop, length-take, length-drop, arith,
}
use mathlib.Core.List.{flatten}
use bushido.Sync.Noise.{noise_chunk_size, chunks_from, chunks}

chunks_from-flatten :
    (fuel : ℕ) (bytes : Bytes) → length bytes ≤ fuel → flatten (chunks_from fuel bytes) ≡ bytes
unfolding chunks_from flatten
chunks_from-flatten zero [] h = refl
chunks_from-flatten zero (b ∷ bytes) h = absurd (omega arith)
chunks_from-flatten (suc fuel) [] h = refl
chunks_from-flatten (suc fuel) (b ∷ bytes) h =
    let rest = drop noise_chunk_size (b ∷ bytes) in
    ap (λ l. take noise_chunk_size (b ∷ bytes) ++ l)
      (chunks_from-flatten fuel rest (omega (arith, length-drop noise_chunk_size (b ∷ bytes))))
    ∙ take-append-drop noise_chunk_size (b ∷ bytes)

-- A chunk is not too large for one Noise message.
abbrev pub IsChunk : Bytes → Type 0
IsChunk chunk = length chunk ≤ noise_chunk_size

chunks_from-IsChunk : (fuel : ℕ) (bytes : Bytes) → All IsChunk (chunks_from fuel bytes)
unfolding chunks_from
chunks_from-IsChunk zero bytes = tt
chunks_from-IsChunk (suc fuel) [] = tt
chunks_from-IsChunk (suc fuel) (b ∷ bytes) =
    (omega (arith, length-take noise_chunk_size (b ∷ bytes)), chunks_from-IsChunk fuel _)

-- `n` chunks hold more than `n - 1` whole ones, and at most `n`.
length-chunks_from :
    (fuel : ℕ) (bytes : Bytes)
    → length bytes ≤ fuel
    → (length bytes ≤ noise_chunk_size * length (chunks_from fuel bytes))
      × (noise_chunk_size * length (chunks_from fuel bytes) < length bytes + noise_chunk_size)
unfolding chunks_from
length-chunks_from zero [] h = omega arith
length-chunks_from zero (b ∷ bytes) h = absurd (omega arith)
length-chunks_from (suc fuel) [] h = omega arith
length-chunks_from (suc fuel) (b ∷ bytes) h =
    let rest = drop noise_chunk_size (b ∷ bytes) in
    let len = length-drop noise_chunk_size (b ∷ bytes) in
    let ih = length-chunks_from fuel rest (omega arith) in omega arith

pub chunks-flatten : (bytes : Bytes) → flatten (chunks bytes) ≡ bytes
unfolding chunks
chunks-flatten bytes = chunks_from-flatten (length bytes) bytes (omega arith)

pub chunks-IsChunk : (bytes : Bytes) → All IsChunk (chunks bytes)
unfolding chunks
chunks-IsChunk bytes = chunks_from-IsChunk (length bytes) bytes

pub length-chunks :
    (bytes : Bytes)
    → (length bytes ≤ noise_chunk_size * length (chunks bytes))
      × (noise_chunk_size * length (chunks bytes) < length bytes + noise_chunk_size)
unfolding chunks
length-chunks bytes = length-chunks_from (length bytes) bytes (omega arith)
