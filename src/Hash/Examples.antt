-- ===== src/Hash/Examples.antt =====
-- The theorems on src/hash.cpp at concrete messages.
use libnap.Base.{ℕ, List, [], ◌∷◌, ◌>>=◌, refl, arith, some, ◌≡◌, memcpy}
use libnap.Hash.Common.{rotate_left, rotate_right, reverse32, swap32}
use libnap.Hash.Mhash.{mhash, mhash_loop, mhash_round, char_to_u32}
use libnap.Hash.Blocks.{add_loop, pad, padding_size, bit_length, transform}
use libnap.Hash.Blocks as B
use libnap.Hash.Stream.{add_all}
use libnap.Hash.Sha256 as Sha256
use libnap.Hash.Sha256.Add.{Adds, reset-Absorbed, sha256_add_lem}
use libnap.Hash.Sha256.Digest as Sha256Digest
use libnap.Hash.Md5 as Md5
use libnap.Hash.Md5.Digest as Md5Digest
use libnap.Hash.Sha1 as Sha1
use libnap.Hash.Sha1.Digest as Sha1Digest

abbrev abc_pieces : List (List ℕ)
abc_pieces = (97 ∷ 98 ∷ []) ∷ (99 ∷ []) ∷ []

abbrev abc : List ℕ
abc = 97 ∷ 98 ∷ 99 ∷ []

sha256_pieces_example :
    Sha256Digest.Digests abc (do s ← add_all Sha256.add Sha256.reset abc_pieces; Sha256.calculate s)
sha256_pieces_example = Sha256Digest.sha256_pieces_lem abc_pieces (omega arith) (omega arith)

md5_pieces_example :
    Md5Digest.Digests abc (do s ← add_all Md5.add Md5.reset abc_pieces; Md5.calculate s)
md5_pieces_example = Md5Digest.md5_pieces_lem abc_pieces (omega arith) (omega arith)

sha1_pieces_example :
    Sha1Digest.Digests abc (do s ← add_all Sha1.add Sha1.reset abc_pieces; Sha1.calculate s)
sha1_pieces_example = Sha1Digest.sha1_pieces_lem abc_pieces (omega arith) (omega arith)

sha256_add_example : Adds (97 ∷ 98 ∷ []) (Sha256.add Sha256.reset abc 2)
sha256_add_example = sha256_add_lem Sha256.reset [] abc 2 (omega arith) (omega arith) reset-Absorbed

-- The examples of the standards: the digests of the text "abc".
sha256_abc :
    (do s ← Sha256.add Sha256.reset abc 3; r ← Sha256.calculate s; some (r.1))
    ≡ some (
        186 ∷ 120 ∷ 22 ∷ 191 ∷ 143 ∷ 1 ∷ 207 ∷ 234 ∷ 65 ∷ 65 ∷ 64 ∷ 222 ∷ 93 ∷ 174 ∷ 34 ∷ 35 ∷ 176
        ∷ 3 ∷ 97 ∷ 163 ∷ 150 ∷ 23 ∷ 122 ∷ 156 ∷ 180 ∷ 16 ∷ 255 ∷ 97 ∷ 242 ∷ 0 ∷ 21 ∷ 173 ∷ [])
unfolding memcpy rotate_right swap32 Sha256.add Sha256.add_loop Sha256.reset Sha256.calculate
    Sha256.pad_buffer Sha256.extra_block Sha256.swap64_bytes Sha256.swap_words Sha256.output
    Sha256.cal_sha256 Sha256.full_block Sha256.compress Sha256.rounds Sha256.round Sha256.fill_words
    Sha256.extend_words Sha256.ch Sha256.ma Sha256.usi0 Sha256.usi1 Sha256.lsi0 Sha256.lsi1
sha256_abc = refl

md5_abc :
    (do s ← Md5.add Md5.reset abc 3; r ← Md5.calculate s; some (r.1))
    ≡ some (
        144 ∷ 1 ∷ 80 ∷ 152 ∷ 60 ∷ 210 ∷ 79 ∷ 176 ∷ 214 ∷ 150 ∷ 63 ∷ 125 ∷ 40 ∷ 225 ∷ 127 ∷ 114 ∷ [])
unfolding memcpy rotate_left B.add add_loop pad padding_size bit_length transform Md5.add Md5.reset
    Md5.calculate Md5.length_bytes Md5.dword2byte Md5.byte2dword Md5.output Md5.compress Md5.round1
    Md5.round2 Md5.round3 Md5.round4 Md5.ff Md5.gg Md5.hh Md5.ii Md5.md5_f Md5.md5_g Md5.md5_h
    Md5.md5_i
md5_abc = refl

sha1_abc :
    (do s ← Sha1.add Sha1.reset abc 3; r ← Sha1.calculate s; some (r.1))
    ≡ some (
        169 ∷ 153 ∷ 62 ∷ 54 ∷ 71 ∷ 6 ∷ 129 ∷ 106 ∷ 186 ∷ 62 ∷ 37 ∷ 113 ∷ 120 ∷ 80 ∷ 194 ∷ 108 ∷ 156
        ∷ 208 ∷ 216 ∷ 157 ∷ [])
unfolding memcpy rotate_left reverse32 B.add add_loop pad padding_size bit_length transform Sha1.add
    Sha1.reset Sha1.calculate Sha1.length_bytes Sha1.reversed Sha1.output Sha1.compress Sha1.steps
    Sha1.step Sha1.choose Sha1.parity Sha1.majority Sha1.fill_words Sha1.extend_words Sha1.word
sha1_abc = refl

-- The checksum of "abc" is 0x61 * 256 + 0x62 * 16 + 0x63.
mhash-abc : mhash abc 3 ≡ some 26499
unfolding mhash mhash_loop mhash_round char_to_u32
mhash-abc = refl
