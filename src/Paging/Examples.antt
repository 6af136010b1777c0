-- ===== src/Paging/Examples.antt =====
-- The identity map at a concrete placement of the tables.
use tartarus_hobby_os.Base.{◌≡◌, arith, some, inl}
use tartarus_hobby_os.Paging.{PageTables, Addresses, setup_paging}
use tartarus_hobby_os.Paging.Walk.{walk, IsPlaced, setup_paging-identity}

abbrev addresses : Addresses
addresses = record { pdpt = 0x10_1000; pd = 0x10_2000 }

-- What the tables hold before they are set up.
abbrev stale : PageTables
stale = record { pml4 = λ i. 7; pdpt = λ i. i; pd = λ i j. j }

addresses-IsPlaced : IsPlaced addresses
addresses-IsPlaced = record {
  pdpt_page = omega arith;
  pd_page = omega arith;
  pdpt_small = omega arith;
  pd_small = omega arith;
  apart = inl (omega arith);
}

-- The zone of the amnesia stub is mapped to itself.
setup_paging-identity_example :
    walk addresses (setup_paging addresses stale) 0x600_0000 ≡ some 0x600_0000
setup_paging-identity_example =
    setup_paging-identity addresses stale 0x600_0000 addresses-IsPlaced (omega arith)
