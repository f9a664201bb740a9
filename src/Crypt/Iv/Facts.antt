-- ===== src/Crypt/Iv/Facts.antt =====
-- mumble/ocb.c, the window of `crypt_decrypt`: what every window that it finds has in common.
use lua_mumble.Base.{ℕ, ◌+◌, ◌<◌, List, [], ◌∷◌, none, some, true, false, length, drop, ◌≡◌, arith}
use lua_mumble.Base.Bits.{bit_and_mask}
use lua_mumble.Crypt.Iv.{Window, find_window}
use lua_mumble.Crypt.Iv.Laws.{length-increment, length-decrement}

-- The IV of a window begins with the byte of the packet.
pub window_first :
    (iv : List ℕ) (x : ℕ) {w : Window} → find_window iv x ≡ some w → w.iv ≡ x ∷ drop 1 w.iv
unfolding find_window
window_first [] x h = absurd (ground arith)
window_first (b ∷ bs) x h = ground arith

-- Only late packets restore the IV, and they are not in order.
pub window_restore :
    (iv : List ℕ) (x : ℕ) {w : Window}
    → find_window iv x ≡ some w
    → w.restore ≡ true
    → w.in_order ≡ false
unfolding find_window
window_restore [] x h r = ground arith
window_restore (b ∷ bs) x h r = ground arith

-- The window keeps the length of the IV.
pub length-window :
    (iv : List ℕ) (x : ℕ) {w : Window} → find_window iv x ≡ some w → length w.iv ≡ length iv
unfolding find_window
length-window [] x h = absurd (ground arith)
length-window (b ∷ bs) x h = ground (arith, length-increment bs, length-decrement bs)

-- There is no window for the packet that came last.
pub find_window_again : (x : ℕ) (bs : List ℕ) → x < 256 → find_window (x ∷ bs) x ≡ none
unfolding find_window
find_window_again x bs h = ground (arith, bit_and_mask 8 (x + 1))
