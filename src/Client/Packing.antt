-- ===== src/Client/Packing.antt =====
-- Where the packer puts the pieces of each entry.
use mathlib.Core.Path.{subst, subst₂}
use mathlib.Core.List.{append-nil, append_assoc}
use recovery_guardian_contra.Client.Places.{Holds-grow, Holds}
use recovery_guardian_contra.Prelude.{
  ap, ◌∙◌, inr, sym, bytes_eq_iff, length-append, arith, inl, refl, bytes_eq, Bool-cases, [], ◌∷◌,
  Option, ◌+◌, some, All, ℕ, ◌++◌, List, ◌≡◌, Bytes, length,
}
use mathlib.Core.Option.{some_inj}
use recovery_guardian_contra.Client.{
  bytes_eq, Option, some, ◌∷◌, ℕ, List, Bytes, length, Entry, Offsets, get, place, place_message,
  place_all, pushed,
}

-- The widths that keys, signatures and digests have.
pub record IsEntry (entry : Entry) : Type 0 where
  pub key_sized : length entry.public_key ≡ 32
  pub signature_sized : length entry.signature ≡ 64
  pub message_sized : length entry.message ≡ 32

-- The offsets name the pieces of the entry.
pub record Placed (bytes : Bytes) (o : Offsets) (entry : Entry) : Type 0 where
  pub key_at : Holds bytes o.public_key_offset entry.public_key
  pub signature_at : Holds bytes o.signature_offset entry.signature
  pub message_at : Holds bytes o.message_offset entry.message
  pub size_is : o.message_size ≡ length entry.message

abbrev pub AllPlaced : Bytes → List Offsets → List Entry → Type 0
AllPlaced bytes [] [] = Unit {0}
AllPlaced bytes [] (entry ∷ entries) = ⊥
AllPlaced bytes (o ∷ offsets) [] = ⊥
AllPlaced bytes (o ∷ offsets) (entry ∷ entries) =
    Placed bytes o entry × AllPlaced bytes offsets entries

-- The Map names a place of each of its messages.
abbrev AllKnown : Bytes → List (Bytes × ℕ) → Type 0
AllKnown bytes known = All (λ (p : Bytes × ℕ). Holds bytes p.1 p.0) known

AllKnown-grow :
    (bytes more : Bytes) (known : List (Bytes × ℕ))
    → AllKnown bytes known
    → AllKnown (bytes ++ more) known
AllKnown-grow bytes more [] h = tt
AllKnown-grow bytes more (p ∷ known) h = (Holds-grow h.0 more, AllKnown-grow bytes more known h.1)

get-Holds :
    (bytes message : Bytes) (known : List (Bytes × ℕ)) {offset : ℕ}
    → AllKnown bytes known
    → get message known ≡ some offset
    → Holds bytes offset message
unfolding get
get-Holds bytes message [] h found = cc
get-Holds bytes message ((key, at) ∷ known) h found = elim (Bool-cases (bytes_eq key message)) [
  | inl same ↦
      subst₂ (Holds bytes) (some_inj.0 (rw same at found)) ((bytes_eq_iff key message).0 same) h.0
  | inr other ↦ get-Holds bytes message known h.1 (rw other at found)
]

Placed-grow :
    (bytes more : Bytes) (o : Offsets) (entry : Entry)
    → Placed bytes o entry
    → Placed (bytes ++ more) o entry
Placed-grow bytes more o entry p = record {
  key_at = Holds-grow p.key_at more;
  signature_at = Holds-grow p.signature_at more;
  message_at = Holds-grow p.message_at more;
  size_is = p.size_is;
}

module _ (head : Bytes) (start : ℕ) (sized : length head ≡ start) where
  -- What has been pushed behind the head is where the lengths say.
  behind_head : (body piece : Bytes) → Holds (head ++ (body ++ piece)) (start + length body) piece
  behind_head body piece = record {
    before = head ++ body;
    behind = [];
    split = simp (append_assoc, append-nil);
    at = omega (arith, length-append head body);
  }

  grow_body :
      (body more : Bytes) {offset : ℕ} {piece : Bytes}
      → Holds (head ++ body) offset piece
      → Holds (head ++ (body ++ more)) offset piece
  grow_body body more {offset} {piece} h =
      subst (λ (b : Bytes). Holds b offset piece) (append_assoc head body more) (Holds-grow h more)

  grow_pushed :
      (entry : Entry) (body : Bytes) {offset : ℕ} {piece : Bytes}
      → Holds (head ++ body) offset piece
      → Holds (head ++ pushed entry body) offset piece
  grow_pushed entry body h =
      grow_body (body ++ entry.public_key) entry.signature (grow_body body entry.public_key h)

  known_grow :
      (body more : Bytes) (known : List (Bytes × ℕ))
      → AllKnown (head ++ body) known
      → AllKnown (head ++ (body ++ more)) known
  known_grow body more known h =
      subst (λ (b : Bytes). AllKnown b known) (append_assoc head body more)
        (AllKnown-grow (head ++ body) more known h)

  known_pushed :
      (entry : Entry) (body : Bytes) (known : List (Bytes × ℕ))
      → AllKnown (head ++ body) known
      → AllKnown (head ++ pushed entry body) known
  known_pushed entry body known h =
      known_grow (body ++ entry.public_key) entry.signature known
        (known_grow body entry.public_key known h)

  -- The state of the packer after one entry.
  abbrev Grown : Entry → Bytes → Offsets × Bytes × List (Bytes × ℕ) → Type 0
  Grown entry body (o, body', known') =
      ((more : Bytes) × (body' ≡ body ++ more))
      × Placed (head ++ body') o entry
      × AllKnown (head ++ body') known'

  place_message-Grown :
      (entry : Entry) (body : Bytes) (known : List (Bytes × ℕ)) (found : Option ℕ)
      → AllKnown (head ++ body) known
      → get entry.message known ≡ found
      → Grown entry body (place_message start entry body known found)
  unfolding place_message
  place_message-Grown entry body known (some offset) h found = (
    (entry.public_key ++ entry.signature, append_assoc body entry.public_key entry.signature),
    record {
      key_at =
          grow_body (body ++ entry.public_key) entry.signature (behind_head body entry.public_key);
      signature_at = behind_head (body ++ entry.public_key) entry.signature;
      message_at = grow_pushed entry body (get-Holds (head ++ body) entry.message known h found);
      size_is = refl;
    },
    known_pushed entry body known h,
  )
  place_message-Grown entry body known Option.none h found = (
    (entry.public_key ++ (entry.signature ++ entry.message), simp append_assoc),
    record {
      key_at = grow_body (pushed entry body) entry.message (
          grow_body (body ++ entry.public_key) entry.signature (behind_head body entry.public_key));
      signature_at =
          grow_body (pushed entry body) entry.message
            (behind_head (body ++ entry.public_key) entry.signature);
      message_at = behind_head (pushed entry body) entry.message;
      size_is = refl;
    },
    (
      behind_head (pushed entry body) entry.message,
      known_grow (pushed entry body) entry.message known (known_pushed entry body known h),
    ),
  )

  place_all_grows :
      (entries : List Entry) (body : Bytes) (known : List (Bytes × ℕ))
      → AllKnown (head ++ body) known
      → let final = (place_all start entries body known).1 in
        ((more : Bytes) × (final ≡ body ++ more))
        × AllPlaced (head ++ final) (place_all start entries body known).0 entries
  unfolding place_all place
  place_all_grows [] body known h = (([], sym (append-nil body)), tt)
  place_all_grows (entry ∷ entries) body known h =
      let one = place start entry body known in
      let ((more, first_grew), placed, known') =
        place_message-Grown entry body known (get entry.message known) h refl in
      let ((later, grew), rest) = place_all_grows entries one.1 one.2 known' in
      (
        (more ++ later, grew ∙ ap (λ b. b ++ later) first_grew ∙ append_assoc body more later),
        (
          subst (λ (b : Bytes). Placed (head ++ b) one.0 entry) (sym grew)
              (subst (λ (b : Bytes). Placed b one.0 entry) (append_assoc head one.1 later)
                (Placed-grow (head ++ one.1) later one.0 entry placed)),
          rest,
        ),
      )

  -- Behind a head of the right length, every entry is where its offsets say.
  pub place_all-AllPlaced :
      (entries : List Entry)
      → let placed = place_all start entries [] [] in AllPlaced (head ++ placed.1) placed.0 entries
  place_all-AllPlaced entries = (place_all_grows entries [] [] tt).1
