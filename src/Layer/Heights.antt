-- ===== src/Layer/Heights.antt =====
-- Where UpDown puts a layer, and that the stack stays one of known layers, each once.
use mikan_os_x.Base.{
  ℕ, suc, ◌+◌, ◌-◌, ◌^◌, ◌%◌, ◌<◌, ◌≤◌, ◌≡◌, ◌≢◌, refl, ap, sym, ◌∙◌, subst, min, ◌==◌, ltb,
  if◌then◌else◌, List, [], ◌∷◌, ◌++◌, none, some, arith, length, Option-cases, inl, inr, ℕ_discrete,
}
use mikan_os_x.Base.Int.{pos}
use mikan_os_x.Layer.{
  Layer, LayerManager, find_in, find_layer, pointer, restack, up_down, hide, get_height, new_layer,
  fresh_layer, remove_layer, erase_layers,
}
use mikan_os_x.Layer.Stack.{
  index_of, erase, insert_at, count, count-erase, count-insert_at, index_of-none, index_of-some,
  index_of-insert_at, erase-insert_at, erase-none, length-erase,
}

-- No id stands twice in the stack, and each belongs to a layer.
pub record IsStack (m : LayerManager) : Type 0 where
  pub once : (id : ℕ) → count id m.layer_stack ≤ 1
  pub known : (id : ℕ) → 0 < count id m.layer_stack → find_layer id m ≢ none

find_in-id :
    (id : ℕ) (layers : List Layer) (layer : Layer) → find_in id layers ≡ some layer → layer.id ≡ id
unfolding find_in
find_in-id id [] layer h = absurd (ground arith)
find_in-id id (first ∷ rest) layer h = ground (arith, find_in-id id rest layer)

pub pointer-known :
    (id : ℕ) (m : LayerManager) → find_layer id m ≢ none → pointer (find_layer id m) ≡ id
unfolding pointer find_layer
pointer-known id m h = elim (Option-cases (find_in id m.layers)) [
  | inl e ↦ absurd (h e)
  | inr (layer, e) ↦ rw e (find_in-id id m.layers layer e)
]

length-erase-le : (x : ℕ) (ys : List ℕ) → length (erase x ys) ≤ length ys
unfolding erase
length-erase-le x [] = omega arith
length-erase-le x (y ∷ ys) = ground (arith, length-erase-le x ys)

-- UpDown's two ways of putting a layer into the stack come to one.
pub restack-eq :
    (layer height : ℕ) (stack : List ℕ)
    → height ≤ length stack
    → restack layer height stack
      ≡ insert_at (min height (length (erase layer stack))) layer (erase layer stack)
unfolding restack
restack-eq layer height stack low = elim (Option-cases (index_of layer stack)) [
  | inl e ↦
      let same : erase layer stack ≡ stack = erase-none layer stack (index_of-none layer stack e) in
      let m : height ≡ min height (length stack) = omega arith in
      rw (e, restack, same) (ap (λ k. insert_at k layer stack) m)
  | inr (old, e) ↦
      let shorter : suc (length (erase layer stack)) ≡ length stack =
        length-erase layer stack (index_of-some layer old stack e).0 in
      let m : (if height == length stack then height - 1 else height)
          ≡ min height (length (erase layer stack)) =
        ground arith in
      rw (e, restack) (ap (λ k. insert_at k layer (erase layer stack)) m)
]

erased : (x : ℕ) (stack : List ℕ) → count x stack ≤ 1 → count x (erase x stack) ≡ 0
erased x stack once = ground (arith, count-erase x x stack)

-- The height that UpDown gives, and all that it does to the rest.
pub restack_lem :
    (layer height : ℕ) (stack : List ℕ)
    → count layer stack ≤ 1
    → height ≤ length stack
    → (index_of layer (restack layer height stack) ≡ some (min height (length (erase layer stack))))
      × (erase layer (restack layer height stack) ≡ erase layer stack)
      × ((id : ℕ)
          → count id (restack layer height stack) ≡ (if layer == id then 1 else count id stack))
restack_lem layer height stack once low =
    let rest = erase layer stack in
    let k = min height (length rest) in
    rw (restack-eq layer height stack low) (
      index_of-insert_at k layer rest (erased layer stack once) (omega arith),
      erase-insert_at k layer rest (erased layer stack once),
      λ id. ground (arith, count-insert_at k layer id rest, count-erase layer id stack, once),
    )

pub up_down-stack :
    (id height : ℕ) (m : LayerManager)
    → find_layer id m ≢ none
    → (up_down id (pos height) m).layer_stack
      ≡ insert_at (min height (length (erase id m.layer_stack))) id (erase id m.layer_stack)
unfolding up_down find_layer
up_down-stack id height m exists =
    let n = length m.layer_stack in
    let short : length (erase id m.layer_stack) ≤ n = length-erase-le id m.layer_stack in
    let e : min (if ltb n height then n else height) (length (erase id m.layer_stack))
        ≡ min height (length (erase id m.layer_stack)) =
      ground arith in
    rw (pointer-known id m exists) (
      restack-eq id (if ltb n height then n else height) m.layer_stack (ground arith)
      ∙ ap (λ k. insert_at k id (erase id m.layer_stack)) e)

-- UpDown of a layer that exists, on a well-formed stack, to a height of 0 or more: the layer
-- comes to stand at that height or, if that is less, on top of all others; the others keep their
-- order; the stack stays well-formed.
pub up_down-height :
    (id height : ℕ) (m : LayerManager)
    → IsStack m
    → find_layer id m ≢ none
    → (get_height id (up_down id (pos height) m)
        ≡ pos (min height (length (erase id m.layer_stack))))
      × (erase id (up_down id (pos height) m).layer_stack ≡ erase id m.layer_stack)
      × IsStack (up_down id (pos height) m)
unfolding up_down get_height find_layer
up_down-height id height m ok exists =
    let n = length m.layer_stack in
    let h = if ltb n height then n else height in
    let (found, rest, counts) = restack_lem id h m.layer_stack (ok.once id) (ground arith) in
    let short : length (erase id m.layer_stack) ≤ n = length-erase-le id m.layer_stack in
    let e : min h (length (erase id m.layer_stack)) ≡ min height (length (erase id m.layer_stack)) =
      ground arith in
    rw (pointer-known id m exists) (
      rw (found, get_height, e) refl,
      rest,
      record {
        once = λ other. ground (arith, counts other, ok.once other);
        known = λ other some_where gone. elim (ℕ_discrete id other) [
          | yes same ↦ exists (subst (λ i. find_layer i m ≡ none) (sym same) gone)
          | no differ ↦ ok.known other (ground (arith, counts other)) gone
        ];
      },
    )

hide-IsStack : (id : ℕ) (m : LayerManager) → IsStack m → IsStack (hide id m)
unfolding hide find_layer
hide-IsStack id m ok = record {
  once = λ other.
      ground (arith, count-erase (pointer (find_layer id m)) other m.layer_stack, ok.once other);
  known = λ other h.
      ok.known other (ground (arith, count-erase (pointer (find_layer id m)) other m.layer_stack));
}

find_in-append :
    (id : ℕ) (layers more : List Layer)
    → find_in id (layers ++ more) ≡ none
    → find_in id layers ≡ none
unfolding find_in
find_in-append id [] more h = refl
find_in-append id (first ∷ rest) more h = ground (arith, find_in-append id rest more)

new_layer-IsStack : (m : LayerManager) → IsStack m → IsStack (new_layer m).1
unfolding new_layer find_layer
new_layer-IsStack m ok = record {
  once = ok.once;
  known = λ id h gone.
      ok.known id h
        (find_in-append id m.layers (fresh_layer ((m.latest_id + 1) % 2 ^ 32) ∷ []) gone);
}

find_in-erase :
    (id other : ℕ) (layers : List Layer)
    → id ≢ other
    → find_in other (erase_layers id layers) ≡ find_in other layers
unfolding find_in erase_layers
find_in-erase id other [] ne = refl
find_in-erase id other (first ∷ rest) ne = ground (arith, find_in-erase id other rest)

-- RemoveLayer takes the layer out of the stack before it deletes it, so that no pointer to it is
-- left there.
remove_layer-IsStack :
    (id : ℕ) (m : LayerManager) → IsStack m → find_layer id m ≢ none → IsStack (remove_layer id m)
unfolding remove_layer hide find_layer
remove_layer-IsStack id m ok exists =
    let p : pointer (find_in id m.layers) ≡ id = pointer-known id m exists in
    rw p record {
      once = λ other. ground (arith, count-erase id other m.layer_stack, ok.once other);
      known = λ other h gone.
          let ne : id ≢ other =
            λ e. ground (arith, count-erase id other m.layer_stack, ok.once other) in
          ok.known other (ground (arith, count-erase id other m.layer_stack))
            (sym (find_in-erase id other m.layers ne) ∙ gone);
    }
