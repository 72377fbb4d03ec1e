-- ===== src/Lib.antt =====
-- Plugsched's boundary tools: which functions of the kernel go into the scheduler module.
--
-- Plugsched takes the scheduler out of a built kernel and makes a module of it that can replace the
-- running one. A GCC plugin (boundary/collect.py) writes one metadata file for each C file: its
-- functions, call edges, callbacks, interface functions and struct uses. boundary/analyze.py reads
-- them all together with the symbol table of vmlinux and decides for every function whether it goes
-- into the module (insider), stays outside (sched_outsider), or is on the border (interface and
-- callback functions); boundary/extract.py then edits the source files by that decision. cli.py
-- runs the three.
--
-- The files and what they model:
--   Analyze/Meta       the records of the metadata, which boundary/collect.py writes, the edges and
--                      the configuration
--   Analyze/Linkage    the first pass of the main program of boundary/analyze.py (`first_pass`) and
--                      its loop over `global_fn_dict` (`link_all`)
--   Analyze/Resolve    `lookup_if_global` and the second pass (`second_pass`)
--   Analyze/Vmlinux    `find_in_vmlinux`, one function for each branch of its loop
--   Analyze/Inflect    `inflect`
--   Analyze/Sidecar    `sidecar_inflect` and `__sidecar_dfs`
--   Analyze/Classes    `func_class_arithmetics`
--   Analyze/Redirect   `check_redirect_mangled`
--   Analyze/Structs    the loop that fills `struct_properties`
--   Analyze/Emit       `get_func_decl_strs` and the lines of the written headers
--   Analyze/Main       the main program, from the metadata and the symbol table to the headers
--   Analyze/Output     what the main program writes of its sets for boundary/extract.py
--   Extract/Locate     `function_location` and `var_location` of boundary/extract.py
--   Extract/Lines      `merge_up_lines` and `merge_down_fn` of boundary/extract.py
--   Extract/Functions  `function_extract`
--   Extract/Vars       `merge_down_var` and `var_extract`
--   Extract/Paths      the functions of os.path that are called, on paths as lists of names
--   Extract/Fixes      `fix_include`, `fix_up` and `extract_file`
--   Extract/Preserved  proofs only
--   Collect/Gcc        what boundary/collect.py reads of the objects of the GCC plugin
--   Collect/Bugs       `GccBugs`
--   Collect/Functions  `collect_fn` and the methods that read a declaration
--   Collect/Graph      `collect_edge`, `collect_callback`, `each_stmt` and `each_call_stmt`
--   Collect/Structs    `collect_struct`
--   Collect/Vars       `collect_var`
--   Collect/Info       `__init__` and `collect_info`
--   Cli/Config         `get_config_dir` of cli.py; the names that `glob` finds are its argument, and it
--                      returns the name in place of the path
--   Cli/Version        `get_kernel_version` and `find_old_springboard` of cli.py, and its file lists
--   YamlDiff           tools/yaml-diff.py
--   Common             texts, sets, dictionaries, orders and results, with their laws
--   Tests              a small kernel on which the program is run, and the theorems at work on it
-- The modules below each of these hold the theorems, under names that say what they are about.
--
-- How the code is read. A text is the list of its character codes. A set of Python is a list in
-- which `add` puts no member twice, and its order means nothing. A dictionary is an association list
-- whose keys keep their place, so iteration goes in the order of insertion as in Python. The set of
-- functions `func_class`, a global of the program, is passed to the functions that read it. An
-- exception is a value of `Error` (an assertion that fails, a missing key, an index out of range, a
-- local variable that is not bound, a recursion that goes too deep), and a run ends with the first
-- one. The metadata files are given by name in the order in which they are read, the symbol table as
-- the lines of readelf after the three that the program skips. White space is that of ASCII. The trees
-- of GCC are data: `walk_tree` is the list of the objects it visits, and declarations, structs and
-- field accesses have a number where the code compares them by identity.
--
-- Fuel. `inflect` loops until nothing is deleted; every other round deletes a member, so one round
-- more than there are members is enough. `__sidecar_dfs` is given two levels more than the file has
-- edges: each level finds a new function, which is the start or a callee. `check_redirect_mangled`
-- has no bound of its own; its depth is a parameter that stands for the limit of the interpreter.
-- `merge_down_fn` reads one line in each round and fails after the last one, so the number of lines
-- bounds its rounds; `merge_down_var` takes one round more. The substitution in `array_pointer` takes a
-- character of its text in each round. The climb from a field access to the access around it meets
-- each parent once.
--
-- What is not modelled: the reading and writing of files and of YAML and JSON, the logging, the
-- commands of cli.py, which call other programs, the registration of the plugin's callback, and the C
-- and C++ sources of the module and of the loader.
pub mod Common
pub mod Analyze
pub mod Extract
pub mod Cli
pub mod Collect
pub mod YamlDiff
pub mod Tests
