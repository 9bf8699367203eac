-- ===== src/Console.antt =====
-- src/main.cpp: the lines of the terminal, and what each of them asks for.
pub mod Arguments
pub mod Session
pub mod Lines
pub mod Spinner
use shadow_se.Base.{
  ℕ, Bool, true, false, ◌||◌, List, [], ◌∷◌, if◌then◌else◌, length, drop, Bytes, codes, is_empty,
  same_bytes, starts_with, trim,
}

pub data Command : Type 0 where
  leave help status admin nothing : Command
  search crawl save load save_state load_state : Bytes → Command
  -- The usage line of a command.
  usage : Bytes → Command

-- A command with its argument, or its usage line.
unfoldable pub with_path : Bytes → (Bytes → Command) → Bytes → Command
with_path name make path = if is_empty path then usage name else make path

-- The argument behind the name of a command and a blank.
unfoldable pub behind : Bytes → Bytes → Bytes
behind name input = trim (drop (length name) input)

-- The chain of tests on the trimmed input.
unfoldable pub parse_input : Bytes → Command
unfolding with_path behind
parse_input input =
    if same_bytes input (codes "exit") || same_bytes input (codes "quit")
    then leave
    else if same_bytes input (codes "help")
    then help
    else if same_bytes input (codes "status")
    then status
    else if same_bytes input (codes "admin")
    then admin
    else if starts_with (codes "search ") input
    then with_path (codes "search") search (behind (codes "search ") input)
    else if starts_with (codes "crawl ") input
    then crawl (behind (codes "crawl ") input)
    else if starts_with (codes "save ") input
    then with_path (codes "save") save (behind (codes "save ") input)
    else if starts_with (codes "load ") input
    then with_path (codes "load") load (behind (codes "load ") input)
    else if starts_with (codes "save-state ") input
    then with_path (codes "save-state") save_state (behind (codes "save-state ") input)
    else if starts_with (codes "load-state ") input
    then with_path (codes "load-state") load_state (behind (codes "load-state ") input)
    else if is_empty input
    then nothing
    else search input

unfoldable pub parse_line : Bytes → Command
unfolding parse_input
parse_line line = parse_input (trim line)
