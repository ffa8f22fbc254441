-- ===== src/Responses/Laws.antt =====
-- What the tests on the values of a reply (clients/python/tay/responses.py) mean.
use tay.Prelude.{◌≡◌, ◌⊎◌, ap, true, [], ◌∷◌, arith}
use tay.Text.{Text, mem}
use tay.Text.Laws.{same_iff}
use tay.Value.{Value, null, str}
use tay.Responses.{equals, is_one_of}

pub equals-str : (v : Value) (t : Text) → equals v t ≡ true → v ≡ str t
unfolding equals
equals-str (str s) t h = ap str ((same_iff s t).0 h)
equals-str null t h = cc
equals-str _ t h = cc

pub is_one_of-str :
    (v : Value) (s t : Text) → is_one_of v (s ∷ t ∷ []) ≡ true → (v ≡ str s) ⊎ (v ≡ str t)
unfolding is_one_of mem
is_one_of-str (str r) s t h = ground (arith, same_iff r s, same_iff r t)
is_one_of-str null s t h = cc
is_one_of-str _ s t h = cc
