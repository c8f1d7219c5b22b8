-- ===== src/Examples/NetBytes.antt =====
-- lutil.c: its theorems at concrete numbers.
use skynet_slg.Prelude.{◌%◌, ◌^◌, ◌≡◌, refl, arith, [], ◌∷◌, ◌++◌, some, none}
use skynet_slg.NetBytes.{
  ◌>>=◌, netbytes2uint32, uint322netbytes, netbytes2uint32-uint322netbytes,
  uint322netbytes-netbytes2uint32, netbytes2uint32-short,
}

network_order : uint322netbytes 0x01020304 ≡ 1 ∷ 2 ∷ 3 ∷ 4 ∷ []
unfolding uint322netbytes
network_order = refl

netbytes2uint32-uint322netbytes_example :
    netbytes2uint32 (uint322netbytes 0x101020304 ++ 7 ∷ []) ≡ some (0x101020304 % 2 ^ 32)
netbytes2uint32-uint322netbytes_example = netbytes2uint32-uint322netbytes 0x101020304 (7 ∷ [])

uint322netbytes-netbytes2uint32_example :
    (netbytes2uint32 (1 ∷ 2 ∷ 3 ∷ 255 ∷ []) >>= λ n. some (uint322netbytes n))
    ≡ some (1 ∷ 2 ∷ 3 ∷ 255 ∷ [])
uint322netbytes-netbytes2uint32_example = uint322netbytes-netbytes2uint32 1 2 3 255 (omega arith)

netbytes2uint32-short_example : netbytes2uint32 (1 ∷ 2 ∷ []) ≡ none
netbytes2uint32-short_example = netbytes2uint32-short (1 ∷ 2 ∷ []) (omega arith)
