-- ===== src/Amr/Navigation/Template/Replacing.antt =====
-- The loop that fills in the template of the parameters replaces every placeholder
-- (launchNav2Process of robot_ws/src/amr_navigation/src/navigation_server.cpp).
use mathlib.Core.List.{append_assoc}
use amr_warehouse_collaborat.Prelude.{
  ℕ, zero, suc, ◌+◌, ◌<◌, true, false, ◌≡◌, refl, sym, ap, subst, ◌∙◌, Option, none, some,
  Option-cases, Bool-cases, inl, inr, List, [], ◌∷◌, ◌++◌, length, length-append, drop, take-length,
  drop-length, if◌then◌else◌, arith,
}
use amr_warehouse_collaborat.Amr.GoodsPoints.{codes}
use amr_warehouse_collaborat.Amr.Navigation.Template.{
  starts_with, shift, find_first, find_from, replace_at, replace_loop, robot_prefix, frame_prefix,
  nav2_params,
}

-- A text starts with the pattern.
starts_with-split :
    (pattern text : List ℕ)
    → starts_with pattern text ≡ true
    → (after : List ℕ) × (text ≡ pattern ++ after)
unfolding starts_with
starts_with-split [] text h = (text, refl)
starts_with-split (c ∷ pattern) [] h = absurd (ground (arith, h))
starts_with-split (c ∷ pattern) (d ∷ text) h =
    let (after, e) = starts_with-split pattern text (ground (arith, h)) in
    (after, ground (arith, h, e))

-- Every placeholder, from the left, is replaced in one pass; `skip` is what is left of one.
-- The placeholder is `first ∷ others`.
module _ (first : ℕ) (others prefix : List ℕ) where
  abbrev placeholder : List ℕ
  placeholder = first ∷ others

  unfoldable pub replaced : ℕ → List ℕ → List ℕ
  unfolding starts_with
  replaced skip [] = []
  replaced (suc skip) (c ∷ text) = replaced skip text
  replaced zero (c ∷ text) =
      let skipped = replaced (length others) text in
      let kept = replaced 0 text in
      if starts_with placeholder (c ∷ text) then prefix ++ skipped else c ∷ kept

  replaced-skip :
      (skipped text : List ℕ) → replaced (length skipped) (skipped ++ text) ≡ replaced 0 text
  unfolding replaced
  replaced-skip [] text = refl
  replaced-skip (c ∷ skipped) text = replaced-skip skipped text

  replaced-none : (text : List ℕ) → find_first placeholder text ≡ none → replaced 0 text ≡ text
  unfolding replaced find_first
  replaced-none [] h = refl
  replaced-none (c ∷ text) h = ground (arith, h, replaced-none text)

  -- What the text is when the placeholder first stands at this index.
  record Found (text : List ℕ) (at : ℕ) : Type 0 where
    before : List ℕ
    after : List ℕ
    splits : text ≡ before ++ (placeholder ++ after)
    index : length before ≡ at
    result : replaced 0 text ≡ before ++ (prefix ++ replaced 0 after)

  Found-cons :
      (c : ℕ) (text : List ℕ) (at : ℕ)
      → starts_with placeholder (c ∷ text) ≡ false
      → Found text at
      → Found (c ∷ text) (suc at)
  unfolding replaced
  Found-cons c text at h found = record {
    before = c ∷ found.before;
    after = found.after;
    splits = ap (λ xs. c ∷ xs) found.splits;
    index = ap suc found.index;
    result = ground (arith, h, found.result);
  }

  Found-here :
      (c : ℕ) (text : List ℕ) → starts_with placeholder (c ∷ text) ≡ true → Found (c ∷ text) 0
  unfolding replaced starts_with
  Found-here c text h =
      let (after, e) = starts_with-split others text (ground (arith, h)) in
      record {
        before = [];
        after = after;
        splits = ground (arith, h, e);
        index = refl;
        result =
            ap (λ b. if b then prefix ++ replaced (length others) text else c ∷ replaced 0 text) h
            ∙ ap (λ t. prefix ++ replaced (length others) t) e
            ∙ ap (λ t. prefix ++ t) (replaced-skip others after);
      }

  find_first-Found :
      (text : List ℕ) (at : ℕ) → find_first placeholder text ≡ some at → Found text at
  unfolding find_first
  find_first-Found [] at h = absurd (ground (arith, h))
  find_first-Found (c ∷ text) at h = elim (Bool-cases (starts_with placeholder (c ∷ text))) [
    | inl here ↦ subst (Found (c ∷ text)) (ground (arith, h, here)) (Found-here c text here)
    | inr later ↦ elim (Option-cases (find_first placeholder text)) [
      | inl missing ↦ absurd (ground (arith, h, later, missing))
      | inr (k, found) ↦
          subst (Found (c ∷ text)) (ground (arith, h, later, found))
            (Found-cons c text k later (find_first-Found text k found))
    ]
  ]

  replace_exact :
      (head middle after : List ℕ)
      → replace_at (length head) (length middle) prefix (head ++ (middle ++ after))
        ≡ head ++ (prefix ++ after)
  unfolding replace_at
  replace_exact head middle after =
      let at_end =
        ap (λ n. drop n (head ++ (middle ++ after))) (sym (length-append head middle))
        ∙ ap (drop (length (head ++ middle))) (sym (append_assoc head middle after))
        ∙ drop-length (head ++ middle) after in
      ap (λ t. t ++ (prefix ++ drop (length head + length middle) (head ++ (middle ++ after))))
        (take-length head (middle ++ after))
      ∙ ap (λ t. head ++ (prefix ++ t)) at_end

  -- A round of the loop that finds the placeholder.
  replace_at-Found :
      (done rest : List ℕ) (at : ℕ) (found : Found rest at)
      → replace_at (length done + at) (length placeholder) prefix (done ++ rest)
        ≡ ((done ++ found.before) ++ prefix) ++ found.after
  replace_at-Found done rest at found =
      let head = done ++ found.before in
      let index : length done + at ≡ length head =
        omega (arith, length-append done found.before, found.index) in
      let text : done ++ rest ≡ head ++ (placeholder ++ found.after) =
        ap (λ t. done ++ t) found.splits
        ∙ sym (append_assoc done found.before (placeholder ++ found.after)) in
      ap (λ n. replace_at n (length placeholder) prefix (done ++ rest)) index
      ∙ ap (replace_at (length head) (length placeholder) prefix) text
      ∙ replace_exact head placeholder found.after
      ∙ sym (append_assoc head prefix found.after)

  -- The rest of a round, by where the placeholder stands.
  abbrev round : ℕ → List ℕ → Option ℕ → List ℕ
  round fuel content none = content
  round fuel content (some at) =
      replace_loop fuel placeholder prefix (replace_at at (length placeholder) prefix content)
        (at + length prefix)

  replace_loop-by :
      (fuel : ℕ) (content : List ℕ) (start : ℕ) (o : Option ℕ)
      → find_from placeholder content start ≡ o
      → replace_loop (suc fuel) placeholder prefix content start ≡ round fuel content o
  unfolding replace_loop
  replace_loop-by fuel content start none h = rw (replace_loop, h) refl
  replace_loop-by fuel content start (some at) h = rw (replace_loop, h) refl

  replace_loop-round :
      (fuel : ℕ) (done rest : List ℕ) (o : Option ℕ)
      → find_first placeholder rest ≡ o
      → replace_loop (suc fuel) placeholder prefix (done ++ rest) (length done)
        ≡ round fuel (done ++ rest) (shift (length done) o)
  unfolding replace_loop find_from
  replace_loop-round fuel done rest o h =
      let content = done ++ rest in
      let place : find_from placeholder content (length done) ≡ shift (length done) o =
        ap (λ t. shift (length done) (find_first placeholder t)) (drop-length done rest)
        ∙ ap (shift (length done)) h in
      replace_loop-by fuel content (length done) (shift (length done) o) place

  replace_loop-replaced :
      (fuel : ℕ) (done rest : List ℕ)
      → length rest < fuel
      → replace_loop fuel placeholder prefix (done ++ rest) (length done) ≡ done ++ replaced 0 rest
  replace_loop-replaced zero done rest h = absurd (omega (arith, h))
  replace_loop-replaced (suc fuel) done rest h = elim (Option-cases (find_first placeholder rest)) [
    | inl missing ↦
        replace_loop-round fuel done rest none missing
        ∙ ap (λ t. done ++ t) (sym (replaced-none rest missing))
    | inr (at, e) ↦
        let found = find_first-Found rest at e in
        let done' = (done ++ found.before) ++ prefix in
        let start : (length done + at) + length prefix ≡ length done' = omega (
          arith,
          length-append (done ++ found.before) prefix,
          length-append done found.before,
          found.index,
        ) in
        let shorter : length found.after < fuel = omega (
          arith,
          h,
          ap length found.splits,
          length-append found.before (placeholder ++ found.after),
          length-append placeholder found.after,
        ) in
        replace_loop-round fuel done rest (some at) e
        ∙ ap (λ t. replace_loop fuel placeholder prefix t ((length done + at) + length prefix))
            (replace_at-Found done rest at found)
        ∙ ap (replace_loop fuel placeholder prefix (done' ++ found.after)) start
        ∙ replace_loop-replaced fuel done' found.after shorter
        ∙ append_assoc (done ++ found.before) prefix (replaced 0 found.after)
        ∙ append_assoc done found.before (prefix ++ replaced 0 found.after)
        ∙ ap (λ t. done ++ t) (sym found.result)
  ]

-- The one pass for the placeholder "<robot_prefix>".
unfoldable pub filled : List ℕ → List ℕ → List ℕ
unfolding replaced
filled prefix template = replaced b'<' (codes "robot_prefix>") prefix 0 template

-- The loop terminates: with more fuel than the template has characters, also with the fuel that
-- `nav2_params` takes, it has replaced every placeholder, from the left, by the prefix of the robot, and
-- a placeholder that a replacement makes is not replaced again.
pub loop_fills :
    (robot_id template : List ℕ) (fuel : ℕ)
    → length template < fuel
    → (replace_loop fuel robot_prefix (frame_prefix robot_id) template 0
        ≡ filled (frame_prefix robot_id) template)
      × (nav2_params robot_id template ≡ filled (frame_prefix robot_id) template)
unfolding filled nav2_params
loop_fills robot_id template fuel h =
    let fills = replace_loop-replaced b'<' (codes "robot_prefix>") (frame_prefix robot_id) in
    (fills fuel [] template h, fills (suc (length template)) [] template (omega arith))
