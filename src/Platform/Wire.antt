-- ===== src/Platform/Wire.antt =====
-- The CBOR values that the protocol exchanges. An array holds its items in a list of its own.
use pilotfish.Base.{◌≡◌, refl, ap, Bool, List, [], ◌∷◌}
use pilotfish.Base.Int.{ℤ}
use pilotfish.Base.Text.{Text, Bytes}
use pilotfish.Float.{Float}

mutual
  pub data Value : Type 0 where
    null : Value
    boolean : Bool → Value
    int : ℤ → Value
    float : Float → Value
    string : Text → Value
    bytes : Bytes → Value
    array : Items → Value

  pub data Items : Type 0 where
    end : Items
    item : Value → Items → Items

unfoldable pub items : List Value → Items
items [] = end
items (v ∷ vs) = item v (items vs)

unfoldable pub to_list : Items → List Value
to_list end = []
to_list (item v vs) = v ∷ to_list vs

pub to_list-items : (vs : List Value) → to_list (items vs) ≡ vs
unfolding items to_list
to_list-items [] = refl
to_list-items (v ∷ vs) = ap (◌∷◌ v) (to_list-items vs)

abbrev pub array_of : List Value → Value
array_of vs = array (items vs)
