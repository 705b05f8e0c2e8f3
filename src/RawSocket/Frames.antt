-- ===== src/RawSocket/Frames.antt =====
-- The headers that UDP_WITH_ALL_HEADERS/client.c builds.
use study_eltex.Prelude.{ℕ, ◌<◌, ◌≡◌, [], ◌∷◌, Bytes, get_or, arith}
use study_eltex.RawSocket.{check_sum, ip_front, ip_header}
use study_eltex.RawSocket.Checksum.{AllBytes, check_sum-accepts}

-- The IP header that the client writes for four-byte addresses has a checksum that a receiver accepts.
pub ip_header_accepted :
    (tot_len id a b c d e f g h : ℕ)
    → AllBytes (a ∷ b ∷ c ∷ d ∷ e ∷ f ∷ g ∷ h ∷ [])
    → check_sum (ip_header tot_len id (a ∷ b ∷ c ∷ d ∷ []) (e ∷ f ∷ g ∷ h ∷ [])) ≡ 0
unfolding ip_header ip_front
ip_header_accepted tot_len id a b c d e f g h bytes =
    check_sum-accepts (ip_front tot_len id) (a ∷ b ∷ c ∷ d ∷ e ∷ f ∷ g ∷ h ∷ []) tt
      (
        omega arith,
        (
          omega arith,
          (
            omega arith,
            (
              omega arith,
              (
                omega arith,
                (
                  omega arith,
                  (
                    omega arith,
                    (
                      omega arith,
                      (omega arith, (omega arith, (omega arith, (omega arith, bytes)))),
                    ),
                  ),
                ),
              ),
            ),
          ),
        ),
      )
      (omega arith)

-- The identification of the header is 0 whatever 16-bit number it was to be: `htonl` turns round four
-- bytes, and the field keeps the two that are empty.
ip_header_loses_id :
    (tot_len id : ℕ) (saddr daddr : Bytes)
    → id < 65536
    → (get_or (ip_header tot_len id saddr daddr) 4 0 ≡ 0)
      × (get_or (ip_header tot_len id saddr daddr) 5 0 ≡ 0)
unfolding ip_header ip_front
ip_header_loses_id tot_len id saddr daddr h = (omega arith, omega arith)
