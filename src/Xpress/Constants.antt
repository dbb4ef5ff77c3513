-- ===== src/Xpress/Constants.antt =====
-- xpress/constants.go: the shape of the alphabet and the limits of a match.
use gowim.Base.{ℕ}

abbrev pub num_chars : ℕ
num_chars = 256

abbrev pub num_symbols : ℕ
num_symbols = 512

abbrev pub max_codeword_len : ℕ
max_codeword_len = 15

abbrev pub end_of_data : ℕ
end_of_data = 256

abbrev pub min_offset : ℕ
min_offset = 1

abbrev pub max_offset : ℕ
max_offset = 65535

abbrev pub min_match_len : ℕ
min_match_len = 3

abbrev pub max_match_len : ℕ
max_match_len = 65538

abbrev pub huffman_header_size : ℕ
huffman_header_size = 256
