-- ===== src/Lib.antt =====
-- libnap: byte strings, text encodings, hashes, block ciphers, JSON and a thread pool for network
-- programs.
--
-- The classes other than the thread pool (src/threadpool.cpp) work on `btring`, a byte string
-- with an array, a capacity and a length (src/btring.h, src/btring.cpp). `Hex` and `Base64`
-- (src/trans.cpp) resize a result string and write into its array through pointers; the hashes
-- (src/hash.cpp) copy bytes into a buffer of 64 and compress it when it is full; AES (src/aes.h,
-- src/aes.cpp) expands a key to round keys and transforms blocks of sixteen bytes, which
-- `AesBuffer` cuts a message into and the classes of the modes chain. `JsonParser` reads a text
-- into a tree of `JsonNode` and `JsonStringify` prints it (src/json.h, src/json.cpp); both use
-- `btring` through `at`, `append` and the comparison of keys alone.
--
-- The files. Base: tests, lists under native numbers, memory, machine words and bits. Btring: the
-- fields of `btring` and its operations (`_recap` is recap, `_recap_hold` is recap_hold,
-- `_append` is append, `_set` is set, the operators eq, gt, ge, lt, le, index and plus);
-- Btring/View has what a string stands for and when it is well formed, Btring/InPlace the rule
-- for code that writes into it. Hex and Base64: encode, decode and their loops, with the lists
-- that they are measured against in Encode and Decode. Hash/Sha256: the class SHA256 (calSHA256
-- is cal_sha256). Hash/Blocks: the members that MD5 and SHA1 have in common, with Hash/Md5 and
-- Hash/Sha1 for the arithmetic of `_md5_transform` and `_sha1_transform` and for the members
-- themselves. Hash/Stream: the messages that all three take in. Hash/Mhash: the checksum.
-- Aes/Tables, Aes/Key, Aes/Block and Aes/Padding: the tables, `AesKey`, `AesFun` and
-- `AesPadding`, with the two ciphers one after the other in Aes/RoundTrip. Aes/Stream:
-- `AesBuffer`, whose virtual functions are parameters, with its loop over blocks in
-- Aes/Stream/Rounds and the message that it has taken in in Aes/Stream/Add. Aes/Iv: `CryptIV`.
-- Aes/Modes: the classes of ECB, CBC and CTR, each by one round of its `handle`; Aes/Modes/Cipher
-- is the interface of the block ciphers that the modes use, and Aes/Modes/Finish the end of a
-- message. Aes/Galois: `g_num128` and `shift_right_block`. Aes/Gcm: the two classes of GCM, with
-- `S` as the field `sum`; Aes/Gcm/Blocks and Aes/Gcm/Hash have the loops of `gctr` and `ghash`,
-- Aes/Gcm/Whole the definition of the mode on a whole message, Aes/Gcm/Finish `endinput`, and
-- Aes/Gcm/Counter `inc32`. Json: `JsonNode`, with the map as the list of its pairs in the order
-- of the keys; Json/Results has the exceptions as values, Json/Parser and Json/Printer the two
-- other classes, one function per member and loop (parseObject is parse_object with object_loop,
-- parseKV is parse_kv, strifyValue is strify_value). Json/Map has the laws of the map, Json/Fuel
-- the measure of the recursion, Json/Errors the exceptions, Json/Access the members of a node,
-- Json/Text the printed text as a plain function, Json/Reading and Json/RoundTrip what the parser
-- makes of it. ThreadPool: the queue and the workers as a step relation, with the order of the
-- tasks in ThreadPool/Order and the end of the destructor in ThreadPool/Join. The files named
-- Examples hold concrete runs.
--
-- Conventions. A function that can touch memory returns an `Option`, where `none` is an access
-- out of range, through a null pointer, or beyond the fuel of a loop; a result `some` therefore
-- says that none of these happens. Numbers are natural numbers, and the wrap-around of the
-- machine types is written out. A function of JSON returns an `Outcome`, which also has the
-- exceptions of the source. The content of a new array is the parameter `fresh`, of which the
-- theorems know the length alone. The initial vectors and counters are lists of bytes, of which
-- the constructors of `CryptIV` take as many as the mode reads; a shorter one faults where GCM
-- and CTR read it. A theorem with `Yields` says that the code returns a well-formed string with
-- the given bytes.
--
-- Fuel. The loops of `add` in the hashes run on `len + 1` rounds: each full round takes at least
-- one byte. All other loops count down the rounds that the source counts up. The functions of the
-- JSON parser, which call one another, run on fuel twice the length of the text and two, which
-- Json/Fuel proves to be enough. `AesBuffer::add` calls itself with an empty buffer, where it
-- does not do so again, so that the model has it twice.
--
-- Not modelled: the AES-NI branch; sockets, with the packages that `napcom` sends over them
-- (src/net.h, src/net.cpp), random numbers and logging (src/nap_common.h, src/nap_common.cpp),
-- which lean on calls of the platform; the stack traces and texts of the exceptions, the tree
-- that a parse that throws has made by then, and the overloads that only convert from
-- `std::string` and C strings.
pub mod Base
pub mod Aes
pub mod Btring
pub mod Hex
pub mod Base64
pub mod Hash
pub mod ThreadPool
pub mod Json
