-- ===== src/Ata/Sample.antt =====
-- A drive that obeys the standard, for the theorems' instances: it is busy for three polls before
-- each sector.
use tartarus_hobby_os.Base.{
  ℕ, suc, ◌-◌, ◌*◌, ◌%◌, ◌≡◌, ◌∙◌, refl, ap, arith, ◌==◌, ltb, true, false, if◌then◌else◌,
}
use tartarus_hobby_os.Ata.{Ports}
use tartarus_hobby_os.Ata.Drive.{TaskFile, set_register, lba_of, IsDrive}

-- The task file, the read that goes on, and the polls that the drive stays busy.
pub record Drive : Type 0 where
  pub file : TaskFile
  pub lba : ℕ
  pub count : ℕ
  pub given : ℕ
  pub busy : ℕ

abbrev pub drive : (word : (lba k : ℕ) → ℕ) → Ports Drive
drive word = record {
  outb = λ port val d.
      if port == 0x1f7
      then record d { lba = lba_of d.file; count = d.file.count; given = 0; busy = 3 }
      else record d { file = set_register port val d.file };
  read_status = λ d.
      if d.busy == 0
      then (if ltb d.given (256 * d.count) then 0x58 else 0x50, d)
      else (0x80, record d { busy = d.busy - 1 });
  read_data = λ d. (
    word d.lba d.given,
    record d { given = suc d.given; busy = if suc d.given % 256 == 0 then 3 else 0 },
  );
}

abbrev pub file_of : Drive → TaskFile
file_of d = d.file

abbrev pub IsIdle : Drive → Type 0
IsIdle d = Unit

abbrev pub IsServing : (lba count k busy : ℕ) → Drive → Type 0
IsServing lba count k busy d = (d.lba ≡ lba) × (d.count ≡ count) × (d.given ≡ k) × (d.busy ≡ busy)

pub drive-IsDrive : (word : (lba k : ℕ) → ℕ) → IsDrive (drive word) word file_of IsIdle IsServing
drive-IsDrive word = record {
  register = λ port value d lo hi idle.
      let other : (port == 0x1f7) ≡ false = ground arith in rw other (tt, refl);
  command = λ lba count d idle number sectors lba_mode second some_sectors byte small.
      (3, omega arith, (number, sectors, refl, refl));
  busy = λ lba count k left d is.
      let later : (d.busy == 0) ≡ false = ground (arith, is.3) in
      rw later (refl, refl, (is.0, is.1, is.2, omega (arith, is.3)));
  ready = λ lba count k d is below.
      let now : (d.busy == 0) ≡ true = ground (arith, is.3) in
      let some_left : ltb d.given (256 * d.count) ≡ true = ground (arith, is.1, is.2, below) in
      rw (now, some_left) (refl, is);
  value = λ lba count k d is below. ap (λ x. word x d.given) is.0 ∙ ap (word lba) is.2;
  within_sector = λ lba count k d is below inside.
      let e : suc d.given ≡ suc k = ap (λ n. suc n) is.2 in
      (is.0, is.1, e, rw e (ground (arith, inside)));
  next_sector = λ lba count k d is below end.
      let e : suc d.given ≡ suc k = ap (λ n. suc n) is.2 in
      (3, omega arith, (is.0, is.1, e, rw e (ground (arith, end))));
  last_word = λ lba count k d is behind. tt;
}
