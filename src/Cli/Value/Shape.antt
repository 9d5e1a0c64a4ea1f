-- ===== src/Cli/Value/Shape.antt =====
-- What the scrubbing of a value keeps: its shape, its keys, its numbers and the lengths of its texts.
use claude_mem_lan_sync.Prelude.{◌≡◌, refl, sym, Bytes, Bool, length}
use claude_mem_lan_sync.Cli.Lorem.Length.{length-lorem, lorem_same}
use claude_mem_lan_sync.Cli.Value.{
  Value, null, boolean, number, text, array, object, Items, nil, cons, Members, end, member,
  replace_strings, replace_items, replace_members,
}

mutual
  pub data SameShape : Value → Value → Type 0 where
    nulls : SameShape null null
    booleans : (b : Bool) → SameShape (boolean b) (boolean b)
    numbers : (n : Bytes) → SameShape (number n) (number n)
    texts : (s t : Bytes) → length s ≡ length t → SameShape (text s) (text t)
    arrays : (xs ys : Items) → SameItems xs ys → SameShape (array xs) (array ys)
    objects : (xs ys : Members) → SameMembers xs ys → SameShape (object xs) (object ys)

  pub data SameItems : Items → Items → Type 0 where
    nils : SameItems nil nil
    conses :
        (v w : Value) (xs ys : Items)
        → SameShape v w
        → SameItems xs ys
        → SameItems (cons v xs) (cons w ys)

  pub data SameMembers : Members → Members → Type 0 where
    ends : SameMembers end end
    members :
        (k : Bytes) (v w : Value) (xs ys : Members)
        → SameShape v w
        → SameMembers xs ys
        → SameMembers (member k v xs) (member k w ys)

mutual
  unfolding replace_strings

  keeps : (v : Value) → SameShape v (replace_strings v)
  keeps null = nulls
  keeps (boolean b) = booleans b
  keeps (number n) = numbers n
  keeps (text s) = texts s _ (sym (length-lorem s))
  keeps (array items) = arrays items _ (keeps_items items)
  keeps (object fields) = objects fields _ (keeps_members fields)

  keeps_items : (xs : Items) → SameItems xs (replace_items xs)
  keeps_items nil = nils
  keeps_items (cons v xs) = conses v _ xs _ (keeps v) (keeps_items xs)

  keeps_members : (xs : Members) → SameMembers xs (replace_members xs)
  keeps_members end = ends
  keeps_members (member k v xs) = members k v _ xs _ (keeps v) (keeps_members xs)

mutual
  unfolding replace_strings

  forgets : (v w : Value) → SameShape v w → replace_strings v ≡ replace_strings w
  forgets v w nulls = refl
  forgets v w (booleans b) = refl
  forgets v w (numbers n) = refl
  forgets v w (texts s t h) = rw (lorem_same s t h) refl
  forgets v w (arrays xs ys h) = rw (forgets_items xs ys h) refl
  forgets v w (objects xs ys h) = rw (forgets_members xs ys h) refl

  forgets_items : (xs ys : Items) → SameItems xs ys → replace_items xs ≡ replace_items ys
  forgets_items xs ys nils = refl
  forgets_items xs ys (conses v w xs' ys' h hs) = rw (forgets v w h, forgets_items xs' ys' hs) refl

  forgets_members : (xs ys : Members) → SameMembers xs ys → replace_members xs ≡ replace_members ys
  forgets_members xs ys ends = refl
  forgets_members xs ys (members k v w xs' ys' h hs) =
      rw (forgets v w h, forgets_members xs' ys' hs) refl

-- A scrubbed value has the shape, the keys, the numbers and the lengths of texts of the value, and nothing
-- else of it: values that agree in these are scrubbed to the same value.
pub replace_strings-SameShape :
    (v : Value)
    → SameShape v (replace_strings v)
      × ((w : Value) → SameShape v w → replace_strings v ≡ replace_strings w)
replace_strings-SameShape v = (keeps v, λ w h. forgets v w h)
