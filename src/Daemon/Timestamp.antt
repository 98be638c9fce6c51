-- ===== src/Daemon/Timestamp.antt =====
-- logsvc_daemon/DefaultTimestampFactory.cpp: the text of a point in time.
pub mod Columns
use logsvc.Common.{ℕ, zero, suc, ◌+◌, ◌-◌, ◌*◌, ◌/◌, ◌^◌, [], ◌∷◌, ◌++◌, length}
use logsvc.Common.Text.{Bytes, codes, decimal}
use logsvc.Platform.{Platform, PTime}

abbrev pub replicate : ℕ → ℕ → Bytes
replicate zero c = []
replicate (suc n) c = c ∷ replicate n c

-- out.fill('0'); out.width(field_width); out << std::right << val
unfoldable pub field : ℕ → ℕ → Bytes
field val field_width =
    let digits = decimal val in replicate (field_width - length digits) b'0' ++ digits

-- std::round(frac_sec * 1000 / 10^(resolution() + 1)), half away from zero
unfoldable pub to_ms : Platform → ℕ → ℕ
to_ms P frac_sec = let unit = 10 ^ (P.resolution + 1) in (2 * (frac_sec * 1000) + unit) / (2 * unit)

unfoldable pub timestamp : Platform → PTime → Bytes
timestamp P now =
    field now.year 4
    ++ (codes "."
        ++ (field now.month 2
            ++ (codes "."
                ++ (field now.day 2
                    ++ (codes " "
                        ++ (field now.hours 2
                            ++ (codes ":"
                                ++ (field now.minutes 2
                                    ++ (codes ":"
                                        ++ (field now.seconds 2
                                            ++ (codes "."
                                                ++ field (to_ms P now.fractional_seconds)
                                                    3)))))))))))
