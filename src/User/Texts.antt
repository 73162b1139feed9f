-- ===== src/User/Texts.antt =====
-- The texts that user/proczero.c prints and hands to the kernel, as their bytes.
use riscv_os_lab.Prelude.{ℕ, List, [], ◌∷◌}

-- "My pid: "
abbrev pub my_pid : List ℕ
my_pid = b'M' ∷ b'y' ∷ b' ' ∷ b'p' ∷ b'i' ∷ b'd' ∷ b':' ∷ b' ' ∷ []

-- "Test 1: Writing file /hello.txt\n"
abbrev pub test_1 : List ℕ
test_1 =
    b'T' ∷ b'e' ∷ b's' ∷ b't' ∷ b' ' ∷ b'1' ∷ b':' ∷ b' ' ∷ b'W' ∷ b'r' ∷ b'i' ∷ b't' ∷ b'i' ∷ b'n'
    ∷ b'g' ∷ b' ' ∷ b'f' ∷ b'i' ∷ b'l' ∷ b'e' ∷ b' ' ∷ b'/' ∷ b'h' ∷ b'e' ∷ b'l' ∷ b'l' ∷ b'o'
    ∷ b'.' ∷ b't' ∷ b'x' ∷ b't' ∷ 10 ∷ []

-- "/hello.txt"
abbrev pub file_path : List ℕ
file_path = b'/' ∷ b'h' ∷ b'e' ∷ b'l' ∷ b'l' ∷ b'o' ∷ b'.' ∷ b't' ∷ b'x' ∷ b't' ∷ []

-- "open failed\n"
abbrev pub open_failed : List ℕ
open_failed = b'o' ∷ b'p' ∷ b'e' ∷ b'n' ∷ b' ' ∷ b'f' ∷ b'a' ∷ b'i' ∷ b'l' ∷ b'e' ∷ b'd' ∷ 10 ∷ []

-- "Hello, File System!\n"
abbrev pub file_text : List ℕ
file_text =
    b'H' ∷ b'e' ∷ b'l' ∷ b'l' ∷ b'o' ∷ b',' ∷ b' ' ∷ b'F' ∷ b'i' ∷ b'l' ∷ b'e' ∷ b' ' ∷ b'S' ∷ b'y'
    ∷ b's' ∷ b't' ∷ b'e' ∷ b'm' ∷ b'!' ∷ 10 ∷ []

-- "write failed\n"
abbrev pub write_failed : List ℕ
write_failed =
    b'w' ∷ b'r' ∷ b'i' ∷ b't' ∷ b'e' ∷ b' ' ∷ b'f' ∷ b'a' ∷ b'i' ∷ b'l' ∷ b'e' ∷ b'd' ∷ 10 ∷ []

-- "Test 1 passed: write 20 bytes\n"
abbrev pub test_1_passed : List ℕ
test_1_passed =
    b'T' ∷ b'e' ∷ b's' ∷ b't' ∷ b' ' ∷ b'1' ∷ b' ' ∷ b'p' ∷ b'a' ∷ b's' ∷ b's' ∷ b'e' ∷ b'd' ∷ b':'
    ∷ b' ' ∷ b'w' ∷ b'r' ∷ b'i' ∷ b't' ∷ b'e' ∷ b' ' ∷ b'2' ∷ b'0' ∷ b' ' ∷ b'b' ∷ b'y' ∷ b't'
    ∷ b'e' ∷ b's' ∷ 10 ∷ []

-- "Test 2: Reading file /hello.txt\n"
abbrev pub test_2 : List ℕ
test_2 =
    b'T' ∷ b'e' ∷ b's' ∷ b't' ∷ b' ' ∷ b'2' ∷ b':' ∷ b' ' ∷ b'R' ∷ b'e' ∷ b'a' ∷ b'd' ∷ b'i' ∷ b'n'
    ∷ b'g' ∷ b' ' ∷ b'f' ∷ b'i' ∷ b'l' ∷ b'e' ∷ b' ' ∷ b'/' ∷ b'h' ∷ b'e' ∷ b'l' ∷ b'l' ∷ b'o'
    ∷ b'.' ∷ b't' ∷ b'x' ∷ b't' ∷ 10 ∷ []

-- "reopen failed\n"
abbrev pub reopen_failed : List ℕ
reopen_failed =
    b'r' ∷ b'e' ∷ b'o' ∷ b'p' ∷ b'e' ∷ b'n' ∷ b' ' ∷ b'f' ∷ b'a' ∷ b'i' ∷ b'l' ∷ b'e' ∷ b'd' ∷ 10
    ∷ []

-- "read wrong length\n"
abbrev pub wrong_length : List ℕ
wrong_length =
    b'r' ∷ b'e' ∷ b'a' ∷ b'd' ∷ b' ' ∷ b'w' ∷ b'r' ∷ b'o' ∷ b'n' ∷ b'g' ∷ b' ' ∷ b'l' ∷ b'e' ∷ b'n'
    ∷ b'g' ∷ b't' ∷ b'h' ∷ 10 ∷ []

-- "Test 2 passed: read back: "
abbrev pub test_2_passed : List ℕ
test_2_passed =
    b'T' ∷ b'e' ∷ b's' ∷ b't' ∷ b' ' ∷ b'2' ∷ b' ' ∷ b'p' ∷ b'a' ∷ b's' ∷ b's' ∷ b'e' ∷ b'd' ∷ b':'
    ∷ b' ' ∷ b'r' ∷ b'e' ∷ b'a' ∷ b'd' ∷ b' ' ∷ b'b' ∷ b'a' ∷ b'c' ∷ b'k' ∷ b':' ∷ b' ' ∷ []

-- "Child: hello\n"
abbrev pub child_hello : List ℕ
child_hello =
    b'C' ∷ b'h' ∷ b'i' ∷ b'l' ∷ b'd' ∷ b':' ∷ b' ' ∷ b'h' ∷ b'e' ∷ b'l' ∷ b'l' ∷ b'o' ∷ 10 ∷ []

-- "Parent: child "
abbrev pub parent_child : List ℕ
parent_child =
    b'P' ∷ b'a' ∷ b'r' ∷ b'e' ∷ b'n' ∷ b't' ∷ b':' ∷ b' ' ∷ b'c' ∷ b'h' ∷ b'i' ∷ b'l' ∷ b'd' ∷ b' '
    ∷ []

-- " exited with "
abbrev pub exited_with : List ℕ
exited_with =
    b' ' ∷ b'e' ∷ b'x' ∷ b'i' ∷ b't' ∷ b'e' ∷ b'd' ∷ b' ' ∷ b'w' ∷ b'i' ∷ b't' ∷ b'h' ∷ b' ' ∷ []
