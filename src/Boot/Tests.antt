-- ===== src/Boot/Tests.antt =====
-- Two tags, at 0x100 and 0x110; the identifier of the second is asked for.
use best_os.Common.{ℕ, ◌≡◌, refl, arith, some, ◌==◌, if◌then◌else◌}
use best_os.Mem.{Memory}
use best_os.Mem.Words.{read64, read_bytes}
use best_os.Boot.{next_tag, tags_of, stivale2_get_tag}
use best_os.Boot.Tags.{Chain, First, stivale2_get_tag-First}

-- The structure at 0, with the address of the first tag at 128.
abbrev two_tags : Memory
two_tags a =
    if a == 129
    then 1
    else (if a == 0x100
        then 5
        else (if a == 0x108
            then 0x10
            else (if a == 0x109 then 1 else (if a == 0x110 then 7 else 0))))

chain_first : tags_of 0 two_tags ≡ 0x100
unfolding read64 read_bytes
chain_first = refl

chain_second : next_tag 0x100 two_tags ≡ 0x110
unfolding read64 read_bytes
chain_second = refl

chain_end : next_tag 0x110 two_tags ≡ 0
unfolding read64 read_bytes
chain_end = refl

two_tags-Chain : Chain two_tags (tags_of 0 two_tags) 2
two_tags-Chain = rw chain_first (λ e. ground arith, rw chain_second (λ e. ground arith, chain_end))

stivale2_get_tag-First_example :
    (r : ℕ) × (stivale2_get_tag 10 0 7 two_tags ≡ some r) × First two_tags 7 r (tags_of 0 two_tags)
stivale2_get_tag-First_example =
    stivale2_get_tag-First 2 10 0 7 two_tags two_tags-Chain (omega arith)
