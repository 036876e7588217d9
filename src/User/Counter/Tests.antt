-- ===== src/User/Counter/Tests.antt =====
-- The choices of the counting program.
use linux_base_operating_sys.Prelude.{◌≡◌, update, some, none, refl}
use linux_base_operating_sys.Kernel.{codes}
use linux_base_operating_sys.User.{literal}
use linux_base_operating_sys.User.Support.{ece391_strlen}
use linux_base_operating_sys.User.Counter.{choice}

choice-zero : choice 1 (update (literal (codes "0")) 1 0) ≡ some 100
unfolding choice
choice-zero = refl

-- With the line feed that a read delivers, a digit is no choice.
len-fed : ece391_strlen 1024 (update (literal (codes "0\n")) 2 0) ≡ some 2
unfolding ece391_strlen
len-fed = refl

choice-fed : choice 2 (update (literal (codes "0\n")) 2 0) ≡ none
unfolding choice
choice-fed = refl

choice-nine : choice 1 (update (literal (codes "9")) 1 0) ≡ none
unfolding choice
choice-nine = refl
