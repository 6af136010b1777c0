-- ===== src/ApiManifold/Traps.antt =====
-- What the traps note and return.
use tartarus_hobby_os.Base.{
  ℕ, zero, suc, ◌+◌, ◌*◌, ◌%◌, ◌^◌, ◌≤◌, ◌<◌, ◌≡◌, ◌⊎◌, refl, ◌∙◌, Bool, true, false, ◌&&◌, some,
  List, [], ◌∷◌, ◌++◌, arith, ◌==◌, ltb, if◌then◌else◌, length, take, drop, Bool-cases, inl, inr,
  for_range_inv, ==_iff,
}
use tartarus_hobby_os.Base.Bits.{all_below, all_below_lem}
use tartarus_hobby_os.Text.{is_anti_debug}
use tartarus_hobby_os.Text.Compare.{c_string}
use tartarus_hobby_os.Ram.{Ram, store64, load64}
use tartarus_hobby_os.Ram.Laws.{load64-store64, load64-store64_other}
use tartarus_hobby_os.Text.Copy.{copy_api_name_lem}
use tartarus_hobby_os.Display.{Screen}
use tartarus_hobby_os.ApiManifold.{
  abyss, nth, note_api, show_trap, universal_api_trap, god_zone, deploy_god_object, static_iat_trap,
}
use tartarus_hobby_os.ApiManifold.Names.{api_list}

take-c_string :
    (n : ℕ) (src rest : List ℕ)
    → c_string (take n (c_string src) ++ 0 ∷ rest) ≡ take n (c_string src)
take-c_string zero src rest = refl
take-c_string (suc n) [] rest = refl
take-c_string (suc n) (c ∷ src) rest = ground (arith, take-c_string n src rest)

-- The text that is noted for an index of the list, and for 999.
abbrev pub name_of : ℕ → List ℕ
name_of api_index = if api_index == 999 then abyss else nth api_list api_index

equal : List ℕ → List ℕ → Bool
equal [] [] = true
equal [] (d ∷ t) = false
equal (c ∷ s) [] = false
equal (c ∷ s) (d ∷ t) = (c == d) && equal s t

equal→eq : (s t : List ℕ) → equal s t ≡ true → s ≡ t
unfolding equal
equal→eq [] [] h = refl
equal→eq [] (d ∷ t) h = ground arith
equal→eq (c ∷ s) [] h = ground arith
equal→eq (c ∷ s) (d ∷ t) h = elim (Bool-cases (c == d)) [
  | inl same ↦
      let e : c ≡ d = (==_iff c d).0 same in
      let rest : equal s t ≡ true = ground arith in rw (e, equal→eq s t rest)
  | inr other ↦ ground arith
]

-- No name of the list is cut.
names_table :
    all_below 70 (λ i. equal (take 127 (c_string (nth api_list i))) (nth api_list i)) ≡ true
unfolding all_below equal
names_table = refl

noted-whole : (i : ℕ) → i < 70 → take 127 (c_string (nth api_list i)) ≡ nth api_list i
noted-whole i h = equal→eq _ _ (all_below_lem 70 _ i names_table h)

-- The buffer after `name` is copied.
abbrev after_copy : List ℕ → List ℕ → List ℕ
after_copy name last_api =
    take 127 (c_string name) ++ 0 ∷ drop (suc (length (take 127 (c_string name)))) last_api

abbrev pub IsKnown : ℕ → Type 0
IsKnown api_index = (api_index ≡ 999) ⊎ (api_index < 70)

note_api-copy :
    (api_index : ℕ) (last_api : List ℕ)
    → 128 ≤ length last_api
    → IsKnown api_index
    → note_api api_index last_api ≡ some (after_copy (name_of api_index) last_api)
unfolding note_api
note_api-copy api_index last_api room (inl abyssal) =
    rw abyssal (copy_api_name_lem abyss last_api room)
note_api-copy api_index last_api room (inr listed) =
    let not_999 : (api_index == 999) ≡ false = ground arith in
    let inside : ltb api_index 70 ≡ true = ground arith in
    rw (not_999, inside) (copy_api_name_lem (nth api_list api_index) last_api room)

noted-name :
    (api_index : ℕ)
    → IsKnown api_index
    → take 127 (c_string (name_of api_index)) ≡ name_of api_index
noted-name api_index (inl abyssal) = rw abyssal refl
noted-name api_index (inr listed) =
    let not_999 : (api_index == 999) ≡ false = ground arith in
    rw not_999 (noted-whole api_index listed)

-- The trap of an index of the list, or of 999, halts, and then `GlobalLastAPI` holds the whole name
-- of the function, or the text for a jump to nowhere.
pub universal_api_trap-name_of :
    (api_index : ℕ) (last_api : List ℕ) (s : Screen)
    → 128 ≤ length last_api
    → IsKnown api_index
    → (noted : List ℕ) × (universal_api_trap api_index last_api s ≡ some (noted, show_trap noted s))
      × (c_string noted ≡ name_of api_index)
unfolding universal_api_trap
universal_api_trap-name_of api_index last_api s room known = (
  after_copy (name_of api_index) last_api,
  rw (universal_api_trap, note_api-copy api_index last_api room known) refl,
  take-c_string 127 (name_of api_index) _ ∙ noted-name api_index known,
)

deploy_god_object-stub :
    (stub : ℕ) (ram : Ram) (k : ℕ)
    → k < 4096
    → load64 (deploy_god_object stub ram) (god_zone + k * 8) ≡ stub % 2 ^ 64
unfolding deploy_god_object
deploy_god_object-stub stub ram k h =
    for_range_inv (λ i r. (j : ℕ) → j < i → load64 r (god_zone + j * 8) ≡ stub % 2 ^ 64)
      (λ i r. store64 (god_zone + i * 8) stub r) 4096 0 4096 ram (omega arith)
      (λ i r lo hi filled j below. elim (Bool-cases (j == i)) [
        | inl last ↦
            let e : j ≡ i = (==_iff j i).0 last in rw e (load64-store64 (god_zone + i * 8) stub r)
        | inr old ↦
            load64-store64_other (god_zone + j * 8) (god_zone + i * 8) stub r (ground arith)
            ∙ filled j (ground arith)
      ])
      (λ j below. absurd (omega arith)) k h

-- A function that is imported by name gets 0 if it asks for a debugger, and else a table, each of
-- whose 4096 entries is the stub, after the zone is filled.
pub static_iat_trap-stub :
    (func_name : List ℕ) (s : Screen) (stub : ℕ) (ram : Ram) (k : ℕ)
    → k < 4096
    → let result = (static_iat_trap func_name s).0 in
      ((is_anti_debug func_name ≡ true) × (result ≡ 0))
      ⊎ ((is_anti_debug func_name ≡ false)
          × (load64 (deploy_god_object stub ram) (result + k * 8) ≡ stub % 2 ^ 64))
unfolding static_iat_trap
static_iat_trap-stub func_name s stub ram k h = elim (Bool-cases (is_anti_debug func_name)) [
  | inl asks ↦ inl (asks, rw asks)
  | inr other ↦ inr (other, rw other (deploy_god_object-stub stub ram k h))
]
