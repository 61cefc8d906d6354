-- ===== src/Files/Chunks.antt =====
-- The loop of `Download`, services/file_service/src/FileServiceImpl.cpp: how a file is cut.
use wizz_mania.Prelude.{
  ℕ, ◌+◌, zero, suc, ◌≤◌, ◌<◌, ◌≡◌, refl, ap, ◌∙◌, Bool, true, false, List, [], ◌∷◌, ◌++◌, length,
  take, drop, arith, All, Option, none, some,
}
use wizz_mania.Prelude.Text.{Str, empty}
use wizz_mania.Files.Disk.{DownloadChunk}
use wizz_mania.Sql.{next_event, later_events}
use wizz_mania.Files.Serve.{send_chunks}

-- The bytes of the chunks, one after the other.
abbrev pub received : List DownloadChunk → Str
received [] = []
received (d ∷ ds) = d.cipher_chunk ++ received ds

-- Only the last chunk has the flag of the last chunk.
abbrev pub IsFlagged : List DownloadChunk → Type 0
IsFlagged [] = Unit
IsFlagged (d ∷ []) = d.last_chunk ≡ true
IsFlagged (d ∷ e ∷ ds) = (d.last_chunk ≡ false) × IsFlagged (e ∷ ds)

abbrev pub Fits : ℕ → DownloadChunk → Type 0
Fits size d = (0 < length d.cipher_chunk) × (length d.cipher_chunk ≤ size)

take-drop : (n : ℕ) (s : Str) → take n s ++ drop n s ≡ s
take-drop zero s = refl
take-drop (suc n) [] = refl
take-drop (suc n) (c ∷ s) = ap (λ t. c ∷ t) (take-drop n s)

length-drop : (n : ℕ) (s : Str) → length (drop n s) ≤ length s
length-drop zero s = ground arith
length-drop (suc n) [] = ground arith
length-drop (suc n) (c ∷ s) = ground (arith, length-drop n s)

length-take : (n : ℕ) (s : Str) → length (take n s) ≤ n
length-take zero s = ground arith
length-take (suc n) [] = ground arith
length-take (suc n) (c ∷ s) = ground (arith, length-take n s)

pub send_chunks-received :
    (k fuel : ℕ) (bytes : Str)
    → length bytes ≤ fuel
    → received (send_chunks (suc k) fuel bytes []) ≡ bytes
unfolding send_chunks
send_chunks-received k zero [] h = refl
send_chunks-received k zero (c ∷ s) h = absurd (omega arith)
send_chunks-received k (suc fuel) [] h = refl
send_chunks-received k (suc fuel) (c ∷ s) h =
    ap (λ t. c ∷ t)
      (ap (λ t. take k s ++ t)
          (send_chunks-received k fuel (drop k s) (ground (arith, length-drop k s, h)))
        ∙ take-drop k s)

pub send_chunks-Fits :
    (k fuel : ℕ) (bytes : Str) (writes : List (Option Bool))
    → All (Fits (suc k)) (send_chunks (suc k) fuel bytes writes)
unfolding send_chunks
send_chunks-Fits k zero bytes writes = tt
send_chunks-Fits k (suc fuel) [] writes = tt
send_chunks-Fits k (suc fuel) (c ∷ s) [] =
    ((ground arith, ground (arith, length-take k s)), send_chunks-Fits k fuel (drop k s) [])
send_chunks-Fits k (suc fuel) (c ∷ s) (none ∷ writes) =
    ((ground arith, ground (arith, length-take k s)), send_chunks-Fits k fuel (drop k s) writes)
send_chunks-Fits k (suc fuel) (c ∷ s) (some b ∷ writes) =
    ((ground arith, ground (arith, length-take k s)), tt)

pub send_chunks-IsFlagged :
    (k fuel : ℕ) (bytes : Str) → length bytes ≤ fuel → IsFlagged (send_chunks (suc k) fuel bytes [])
unfolding send_chunks
send_chunks-IsFlagged k zero bytes h = tt
send_chunks-IsFlagged k (suc fuel) [] h = tt
send_chunks-IsFlagged k (suc fuel) (c ∷ s) h =
    flagged k fuel (drop k s) (take k s) c (ground (arith, length-drop k s, h))
      (send_chunks-IsFlagged k fuel (drop k s) (ground (arith, length-drop k s, h)))
  where
    flagged :
        (k fuel : ℕ) (rest t : Str) (c : ℕ)
        → length rest ≤ fuel
        → IsFlagged (send_chunks (suc k) fuel rest [])
        → IsFlagged (
            record { cipher_chunk = c ∷ t; last_chunk = empty rest }
            ∷ send_chunks (suc k) fuel rest [])
    flagged k zero [] t c h i = refl
    flagged k zero (d ∷ r) t c h i = absurd (omega arith)
    flagged k (suc fuel) [] t c h i = refl
    flagged k (suc fuel) (d ∷ r) t c h i = (refl, i)

send_chunks-agree :
    (k fuel more : ℕ) (bytes : Str) (writes : List (Option Bool))
    → length bytes ≤ fuel
    → length bytes ≤ more
    → send_chunks (suc k) fuel bytes writes ≡ send_chunks (suc k) more bytes writes
unfolding send_chunks
send_chunks-agree k zero zero bytes writes h g = refl
send_chunks-agree k zero (suc more) [] writes h g = refl
send_chunks-agree k zero more (c ∷ s) writes h g = absurd (omega arith)
send_chunks-agree k (suc fuel) zero [] writes h g = refl
send_chunks-agree k (suc fuel) zero (c ∷ s) writes h g = absurd (omega arith)
send_chunks-agree k (suc fuel) (suc more) [] writes h g = refl
send_chunks-agree k (suc fuel) (suc more) (c ∷ s) writes h g =
    ap (λ others. by_write others (next_event writes))
      (send_chunks-agree k fuel more (drop k s) (later_events writes)
        (ground (arith, length-drop k s, h)) (ground (arith, length-drop k s, g)))
  where
    chunk : DownloadChunk
    chunk = record { cipher_chunk = c ∷ take k s; last_chunk = empty (drop k s) }

    by_write : List DownloadChunk → Option Bool → List DownloadChunk
    by_write others o = elim o [ none ↦ chunk ∷ others | some b ↦ chunk ∷ [] ]

-- The loop of `Download` ends of itself: with a buffer of at least one byte, the fuel that it is given,
-- the length of the file, is enough, since more of it changes nothing, whatever the client does.
pub send_chunks-fuel :
    (k more : ℕ) (bytes : Str) (writes : List (Option Bool))
    → send_chunks (suc k) (length bytes + more) bytes writes
      ≡ send_chunks (suc k) (length bytes) bytes writes
send_chunks-fuel k more bytes writes =
    send_chunks-agree k (length bytes + more) (length bytes) bytes writes (omega arith)
      (omega arith)
