-- ===== src/Utils/Tests.antt =====
-- The helpers at concrete arguments.
use csci1951l_cryptocurrency.Prelude.{[], ◌∷◌, ◌++◌, ◌≡◌, refl}
use csci1951l_cryptocurrency.Prelude.Int.{pos, negsuc}
use csci1951l_cryptocurrency.Text.{codes}
use csci1951l_cryptocurrency.Prelude.Result.{ok, panic}
use csci1951l_cryptocurrency.Text.Decimal.{format}
use csci1951l_cryptocurrency.Text.Split.{split}
use csci1951l_cryptocurrency.Utils.Logging.{fmt_addr, parse_int, colorize}
use csci1951l_cryptocurrency.Utils.{rev_str_arr}

rev_example :
    rev_str_arr (codes "a" ∷ codes "b" ∷ codes "c" ∷ []) ≡ codes "c" ∷ codes "b" ∷ codes "a" ∷ []
unfolding rev_str_arr
rev_example = refl

fmt_addr_example :
    fmt_addr (codes "host:8")
    ≡ ok (27 ∷ codes "[42m" ++ (27 ∷ codes "[97m[host:8]" ++ 27 ∷ codes "[0m"))
unfolding fmt_addr parse_int split
fmt_addr_example = refl

-- A port below 0 is no index of a color.
fmt_addr_negative : fmt_addr (codes "h:-1") ≡ panic
unfolding fmt_addr parse_int split
fmt_addr_negative = refl

parse_int_example : parse_int 16 (codes "Ff") ≡ pos 255
unfolding parse_int
parse_int_example = refl

parse_int_range : parse_int 10 (codes "-99999999999999999999x") ≡ negsuc 9223372036854775807
unfolding parse_int
parse_int_range = refl

colorize_example : colorize (codes "a") (negsuc 109) ≡ 27 ∷ codes "[38;5;-6ma" ++ 27 ∷ codes "[0m"
unfolding colorize format
colorize_example = refl
