-- ===== src/Machine.antt =====
-- The state that the file system, the loader and the shell work on, and their actions: functions on
-- it that may run out of fuel. `D` is the state of the drive and of the other hardware behind the
-- ports.
pub mod Laws
use tartarus_hobby_os.Base.{ℕ, ◌+◌, ◌*◌, Option, none, some, Bool, List, if◌then◌else◌, add64, u64}
use tartarus_hobby_os.Display.{Screen}
use tartarus_hobby_os.Keyboard.{Console}
use tartarus_hobby_os.Memory.{Heap, malloc, free}
use tartarus_hobby_os.Ata.{Ports, ata_read_sectors}
use tartarus_hobby_os.Ram.{Ram, load16, put_words}

-- The globals of src/fat32.c.
pub record Volume : Type 0 where
  pub fat_start_sector : ℕ
  pub data_start_sector : ℕ
  pub root_cluster : ℕ
  pub sectors_per_cluster : ℕ

pub record Machine {ℓ} (D : Type ℓ) : Type ℓ where
  pub console : Console
  pub heap : Heap
  pub ram : Ram
  pub drive : D
  pub volume : Volume

-- `none` means that the fuel ran out, that a write ran out of its buffer, or that the processor took
-- a fault that does not come back.
abbrev pub M {ℓ} : Type ℓ → Type 0 → Type ℓ
M D A = Machine D → Option (A × Machine D)

module _ {ℓ} {D : Type ℓ} where
  abbrev pub pure : {A : Type 0} → A → M D A
  pure a m = some (a, m)

  abbrev pub out_of_fuel : {A : Type 0} → M D A
  out_of_fuel m = none

  infixl 5 ◌>>=◌ ◌>>◌
  abbrev pub ◌>>=◌ : {A B : Type 0} → M D A → (A → M D B) → M D B
  ◌>>=◌ f g m = elim (f m) [ none ↦ none | some (a, m') ↦ g a m' ]

  abbrev pub ◌>>◌ : {A B : Type 0} → M D A → M D B → M D B
  f >> g = f >>= λ _. g

  abbrev pub gets : {A : Type 0} → (Machine D → A) → M D A
  gets f m = some (f m, m)

  abbrev pub modify : (Machine D → Machine D) → M D (Unit {0})
  modify f m = some (tt, f m)

  -- What a routine of the display does to the screen.
  abbrev pub show : (Screen → Screen) → M D (Unit {0})
  show f = modify (λ m. record m { console = record m.console { screen = f m.console.screen } })

  abbrev pub poke : (Ram → Ram) → M D (Unit {0})
  poke f = modify (λ m. record m { ram = f m.ram })

  -- The pointer of `malloc`, with 0 for NULL.
  unfoldable pub alloc : ℕ → ℕ → M D ℕ
  alloc fuel size m = elim (malloc fuel size m.heap) [
    | none ↦ none
    | some (ptr, h) ↦ some (ptr, record m { heap = h })
  ]

  abbrev pub release : ℕ → M D (Unit {0})
  release ptr = modify (λ m. record m { heap = free ptr m.heap })

  -- `AtaReadSectors` into the memory at `p`: the words behind those that are read stay as they are.
  unfoldable pub read_sectors : Ports D → (lba sector_count p : ℕ) → M D Bool
  read_sectors ports lba sector_count p m =
      let (is_read, t) =
        ata_read_sectors ports lba sector_count (λ k. load16 m.ram (p + 2 * k)) m.drive in
      some (is_read, record m { ram = put_words p (256 * sector_count) t.0 m.ram; drive = t.2 })
