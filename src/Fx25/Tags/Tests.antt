-- ===== src/Fx25/Tags/Tests.antt =====
-- The tag table at concrete candidates and sizes.
use packet_radio_rs.Base.{◌≡◌, refl, none, some}
use packet_radio_rs.Fx25.Tags.{
  fx25_tags, match_tag, match_from, count_ones, select_tag, select_from, takes, max_errors,
}
use packet_radio_rs.Fx25.Tags.Select.{Choice, select_tag-Choice}

-- Tag 1 with three bits in error, and a word that is no tag.
matches : (match_tag 0xB74DB7DF8A532F39 5 ≡ some (1, 3)) × (match_tag 0 5 ≡ none)
unfolding match_tag match_from count_ones
matches = (refl, refl)

-- 190 bytes fit codes of 255 bytes with 16, 32 and 64 check bytes: the first one is taken.
least_parity : select_tag 190 16 ≡ some 1
unfolding select_tag select_from takes
least_parity = refl

correctable :
    max_errors (record { tag = 0x6E260B1AC5835FAE; rs_n = 255; rs_k = 223; check_bytes = 32 }) ≡ 16
unfolding max_errors
correctable = refl

select_tag-Choice_example : Choice 100 32 fx25_tags (select_tag 100 32)
select_tag-Choice_example = select_tag-Choice 100 32
