-- ===== src/Exceptions/Unmapped.antt =====
-- What becomes of a page fault, with the page tables of the kernel.
use tartarus_hobby_os.Exceptions.{Outcome, resume, halt}

pub IsHalted : Outcome → Type 0
IsHalted (resume r) = ⊥
IsHalted (halt s ports) = Unit
