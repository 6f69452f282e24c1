-- ===== src/Vmem/Tests.antt =====
-- Runs of `receive_vaddr_4k` of kernel/src/mm.rs.
use elise.Base.{◌^◌, refl, arith, [], ◌∷◌}
use elise.Vmem.{AreSpaced, receive_vaddr_4k, receive_all-AreSpaced}

receive_all-AreSpaced_example :
    AreSpaced (2 ^ 45) (4096 ∷ 12288 ∷ []) (35184372088832 ∷ 35184372125696 ∷ [])
unfolding receive_vaddr_4k
receive_all-AreSpaced_example =
    receive_all-AreSpaced (2 ^ 45) (4096 ∷ 12288 ∷ []) (35184372088832 ∷ 35184372125696 ∷ [])
      (omega arith) refl refl
