-- ===== src/Loader/Search.antt =====
-- Which address `FindOriginalEntryPoint` gives.
use tartarus_hobby_os.Base.{ℕ, ◌≡◌, refl, ◌⊎◌, inl, inr, Option, none, some}
use tartarus_hobby_os.Ram.{Ram}
use tartarus_hobby_os.Loader.EntryPoint.{
  search, msvc_target, gcc_target, find_msvc, find_original_entry_point,
}
use tartarus_hobby_os.Loader.First.{First, Nowhere, Results, search-Results}
use tartarus_hobby_os.Loader.Code.{
  IsMsvcStub, IsMsvcJump, IsGccCall, gcc_target-Decides, msvc_target-Decides,
  has_msvc_prologue-IsMsvcStub,
}

abbrev pub IsMsvcMain : Ram → (entry t : ℕ) → Type 0
IsMsvcMain ram entry t = IsMsvcStub ram entry × First (IsMsvcJump ram entry) 5 32 t

abbrev pub IsNoMsvc : Ram → (entry : ℕ) → Type 0
IsNoMsvc ram entry = (¬ IsMsvcStub ram entry) ⊎ Nowhere (IsMsvcJump ram entry) 5 32

-- The three results.
abbrev pub Found : Ram → (entry result : ℕ) → Type 0
Found ram entry result =
    IsMsvcMain ram entry result
    ⊎ (IsNoMsvc ram entry × First (IsGccCall ram entry) 0 2048 result)
    ⊎ (IsNoMsvc ram entry × Nowhere (IsGccCall ram entry) 0 2048 × (result ≡ entry))

module _ (ram : Ram) (entry : ℕ) where
  MsvcSearched : Option ℕ → Type 0
  MsvcSearched none = IsNoMsvc ram entry
  MsvcSearched (some t) = IsMsvcMain ram entry t

  find_msvc-Searched : MsvcSearched (find_msvc ram entry)
  unfolding find_msvc Results MsvcSearched
  find_msvc-Searched = elim (has_msvc_prologue-IsMsvcStub ram entry) [
    | inr (miss, none_there) ↦ rw (find_msvc, miss) (inl none_there)
    | inl (hit, stub) ↦
        rw (find_msvc, hit)
          (search_of (search (msvc_target ram entry) 27 5) stub (
            search-Results (msvc_target ram entry) (IsMsvcJump ram entry)
              (msvc_target-Decides ram entry) 27 5))
  ]
    where
      search_of :
          (r : Option ℕ)
          → IsMsvcStub ram entry
          → Results
              (msvc_target ram entry)
              (IsMsvcJump ram entry)
              (msvc_target-Decides ram entry)
              5
              32
              r
          → MsvcSearched r
      search_of none stub h = inr h
      search_of (some t) stub h = (stub, h)

  gcc-Found :
      (r : Option ℕ)
      → IsNoMsvc ram entry
      → Results (gcc_target ram entry) (IsGccCall ram entry) (gcc_target-Decides ram entry) 0 2048 r
      → Found ram entry (elim r [ some main ↦ main | none ↦ entry ])
  unfolding Results
  gcc-Found none no_msvc h = inr (inr (no_msvc, h, refl))
  gcc-Found (some t) no_msvc h = inr (inl (no_msvc, h))

  either :
      (r : Option ℕ)
      → MsvcSearched r
      → Found ram entry (elim r [
        | some main ↦ main
        | none ↦ elim (search (gcc_target ram entry) 2048 0) [ some main ↦ main | none ↦ entry ]
      ])
  unfolding MsvcSearched
  either none h = gcc-Found (search (gcc_target ram entry) 2048 0) h (
      search-Results (gcc_target ram entry) (IsGccCall ram entry) (gcc_target-Decides ram entry)
        2048 0)
  either (some t) h = inl h

  -- If the stub begins with sub rsp, 28h and a call, the result is the address that the first jump of
  -- its bytes 5 to 31 leads to which jumps to code with a load of an address in its first 128 bytes:
  -- the first such address there. If there is none, it is the target of the first call in 2048 bytes
  -- whose result is moved into ecx or rcx before a second call; and if there is none either, it is the
  -- entry point itself. Displacements are numbers with a sign.
  pub find_original_entry_point-Found : Found ram entry (find_original_entry_point ram entry)
  unfolding find_original_entry_point
  find_original_entry_point-Found = either (find_msvc ram entry) find_msvc-Searched
