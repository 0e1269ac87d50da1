-- ===== src/Fx25/Tags.antt =====
-- The correlation tags of core/src/fx25/mod.rs.
pub mod Select
mod Tests
use packet_radio_rs.Base.{
  ℕ, zero, suc, ◌+◌, ◌*◌, ◌/◌, ◌%◌, ◌^◌, Bool, true, false, Option, none, some, List, [], ◌∷◌,
  bit_xor, ltb, leb, ◌==◌, if◌then◌else◌,
}

pub record Fx25Tag : Type 0 where
  pub tag : ℕ
  pub rs_n : ℕ
  pub rs_k : ℕ
  pub check_bytes : ℕ

pub max_errors : Fx25Tag → ℕ
max_errors t = t.check_bytes / 2

-- An entry of the table.
abbrev fx25_tag : ℕ → ℕ → ℕ → ℕ → Fx25Tag
fx25_tag tag n k check = record { tag = tag; rs_n = n; rs_k = k; check_bytes = check }

-- FX25_TAGS
abbrev pub fx25_tags : List Fx25Tag
fx25_tags =
    fx25_tag 0x566ED2717946107E 0 0 0
    ∷ fx25_tag 0xB74DB7DF8A532F3E 255 239 16
    ∷ fx25_tag 0x26FF60A600CC8FDE 144 128 16
    ∷ fx25_tag 0xC7DC0508F3D9B09E 80 64 16
    ∷ fx25_tag 0x8F056EB4369660EE 48 32 16
    ∷ fx25_tag 0x6E260B1AC5835FAE 255 223 32
    ∷ fx25_tag 0xFF94DC634F1CFF4E 160 128 32
    ∷ fx25_tag 0x1EB7B9CDBC09C00E 96 64 32
    ∷ fx25_tag 0xDBF869BD2DBB1776 64 32 32
    ∷ fx25_tag 0x3ADB0C13DEAE2836 255 191 64
    ∷ fx25_tag 0xAB69DB6A543188D6 192 128 64
    ∷ fx25_tag 0x4A4ABEC4A724B796 128 64 64
    ∷ fx25_tag 0x0293D578626B67E6 0 0 0
    ∷ fx25_tag 0xE3B0B0D6917E58A6 0 0 0
    ∷ fx25_tag 0x720267AF1BE1F846 0 0 0
    ∷ fx25_tag 0x93210201E8F4C706 0 0 0
    ∷ []

-- `count_ones` of a number of `n` bits.
unfoldable pub count_ones : ℕ → ℕ → ℕ
count_ones zero a = 0
count_ones (suc n) a = a % 2 + count_ones n (a / 2)

-- The loop of `match_tag`: the best index and distance so far.
unfoldable pub match_from : ℕ → List Fx25Tag → ℕ → ℕ → ℕ → ℕ × ℕ
match_from i [] candidate best_idx best_dist = (best_idx, best_dist)
match_from i (t ∷ tags) candidate best_idx best_dist =
    let dist = count_ones 64 (bit_xor candidate t.tag) in
    let closer = ltb dist best_dist in
    match_from (i + 1) tags candidate (if closer then i else best_idx)
      (if closer then dist else best_dist)

unfoldable pub match_tag : ℕ → ℕ → Option (ℕ × ℕ)
match_tag candidate max_hamming =
    let (best_idx, best_dist) = match_from 0 fx25_tags candidate 0 0xFFFFFFFF in
    if leb best_dist max_hamming then some (best_idx, best_dist) else none

-- Whether `select_tag` takes a tag in place of the best so far.
pub takes : ℕ → ℕ → ℕ → Fx25Tag → Bool
takes data_len min_check best_n t =
    if ltb t.check_bytes min_check
    then false
    else if t.check_bytes == 0
    then false
    else if leb data_len t.rs_k
    then ltb t.rs_n best_n
    else false

-- The loop of `select_tag`: the best index and codeword length so far.
pub select_from : ℕ → List Fx25Tag → ℕ → ℕ → Option ℕ → ℕ → Option ℕ
select_from i [] data_len min_check best_idx best_n = best_idx
select_from i (t ∷ tags) data_len min_check best_idx best_n =
    let better = takes data_len min_check best_n t in
    select_from (i + 1) tags data_len min_check (if better then some i else best_idx)
      (if better then t.rs_n else best_n)

pub select_tag : ℕ → ℕ → Option ℕ
select_tag data_len min_check_bytes = select_from 0 fx25_tags data_len min_check_bytes none 0xFFFF
