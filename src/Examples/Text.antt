-- ===== src/Examples/Text.antt =====
-- Tests of texts, numbers in texts and errors.
use zygote.Common.{true, false, none, some, [], ◌∷◌, codes, pos, negsuc, ◌≡◌, refl}
use zygote.Strings.{split, join, contains, to_lower, cut_suffix, letter_of}
use zygote.Strconv.{itoa, atoi}
use zygote.Errors.{mysql_error, errorf, wrap, conn_done, is_transient_error}

split_test : split b'.' (codes "a..bc") ≡ codes "a" ∷ [] ∷ codes "bc" ∷ []
unfolding split
split_test = refl

join_test : join (codes "a" ∷ codes "b" ∷ []) (codes ", ") ≡ codes "a, b"
unfolding join
join_test = refl

contains_test : contains (to_lower (codes "Connection REFUSED")) (codes "refused") ≡ true
unfolding contains to_lower
contains_test = refl

cut_suffix_test : cut_suffix (codes "a.b.b") (codes ".b") ≡ some (codes "a.b")
unfolding cut_suffix
cut_suffix_test = refl

letter_of_test : letter_of (pos 2) ≡ codes "c"
unfolding letter_of
letter_of_test = refl

itoa_test : itoa (negsuc 1204) ≡ codes "-1205"
unfolding itoa
itoa_test = refl

atoi_test : (atoi (codes "-07") ≡ some (negsuc 6)) × (atoi (codes "1x") ≡ none)
unfolding atoi
atoi_test = (refl, refl)

atoi_overflow : atoi (codes "9223372036854775808") ≡ none
unfolding atoi
atoi_overflow = refl

transient_tests :
    (is_transient_error (mysql_error 2006 (codes "gone away")) ≡ true)
    × (is_transient_error (mysql_error 1064 (codes "network")) ≡ false)
    × (is_transient_error (errorf (codes "dial tcp: Connection refused")) ≡ true)
    × (is_transient_error (wrap (codes "bad connection: ") conn_done) ≡ false)
unfolding is_transient_error
transient_tests = (refl, refl, refl, refl)
