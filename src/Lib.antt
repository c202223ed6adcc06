-- ===== src/Lib.antt =====
-- Verification of the programs of this repository: the file system of TP3-fisopfs, the scheduler,
-- the memory, the environments, the system calls, the console's input buffer and the string and
-- formatting routines of TP2-sched, and the shell of TP1-shell.
--
-- Base: the Boolean tests, lists, byte strings, arrays and the bitwise or that all parts share. An
-- array is a function from the index; `first_from` is the loop that looks for the first index that
-- passes a test.
--
-- Fisopfs models TP3-fisopfs (fs.h, fs.c, fisopfs.c). Tipos has the structs of fs.h: a superblock
-- is a table of 1024 inodes and a bitmap. A C string is the list of its bytes. The `content` of an
-- inode is read by the source as bytes (a regular file) or as an array of 15 entries (a
-- directory), so an inode has a field for each reading, and a `memset` clears both. Rutas, Inodos
-- and Entradas are the functions of fs.c, under their names, with an index for a pointer to an
-- inode and `none` for the result -1. Archivos and Directorios are the callbacks of fisopfs.c:
-- each takes what the system answers (user, group and time), its arguments and the superblock, and
-- returns its result and the superblock after it. Montaje has init, destroy, flush and main; what
-- fopen, fread and fwrite do is a case of a data type. Llamadas is the table of callbacks and runs
-- of them. A size_t or off_t is a number below 2 ^ 64, and sums of them are taken modulo 2 ^ 64.
-- Invariante states what holds of each inode, its children prove that each callback keeps it, and
-- Contrato states what the operations do to files as bytes and directories as lists.
--
-- Planificador models TP2-sched/kern/sched.c, env_run of kern/env.c and sys_modificar_prioridad of
-- kern/syscall.c. Tipos has the fields of an environment that the scheduler reads or writes, and
-- the kernel's variables. The scheduler does not return, so its functions have a Salida: it runs
-- an environment, halts the CPU, or stays in the monitor. Correr, Prioridades and RoundRobin are
-- its functions, Contrato what they promise. An `int` counter is a number with no bound, since its
-- overflow is undefined in C; env_runs is taken modulo 2 ^ 32.
--
-- Shell models TP1-shell, its parser first. Tipos has the structs of types.h: a Cmd is the null
-- pointer or one of the four kinds of command. Lineas is split_line and block_contains of utils.c,
-- Parsing is parsing.c and createcmd.c. The line is the list of its bytes; a pointer into it is
-- the rest of the line, with the byte before it where the source reads that one. What getenv and
-- sprintf answer is a parameter. A store past the end of argv or eargv has the result `none`.
-- Palabras, Tuberias and Cotas state what lines are parsed as and which lines are parsed.
-- Ejecucion is exec.c and freecmd.c over the system calls, which are a parameter (Posix); how a
-- process ends is a tree (Final), where a pipe has the ends of its two children. Interprete is
-- runcmd.c and builtin.c. Descriptores states what POSIX says of open, dup2 and close (Leyes), as
-- Redirecciones uses it. What a run asks of the system besides (Sano, in Aperturas) is that the
-- files of the command open where their turn comes, with no more descriptors in use than before,
-- and that open descriptors can be duplicated. Pruebas has an instance.
--
-- Strings models TP2-sched/lib/string.c: Rutinas has its functions, a string that is read being
-- the list of its bytes before the NUL and memory that is written a function from the address.
-- Comparar, Copiar and Numeros state what they do. The overflow of a `long` in strtol, of 32 bits,
-- is undefined behaviour, `none`. Formato is lib/printfmt.c, whose output is the list of what
-- putch is called with, and Salida lib/printf.c; an argument is a word, two words or a string.
--
-- Entornos models the table of environments of TP2-sched/kern/env.c: env_init, env_alloc with the
-- ids it gives, envid2env, and the end of env_free, which puts a slot back on the free list. An
-- env_link is the index of a slot. Whether env_setup_vm finds memory is a parameter.
--
-- Memoria models TP2-sched/kern/pmap.c: Paginas has the page list (page_init, page_alloc,
-- page_free, page_decref), Tablas the two-level tables (pgdir_walk, page_lookup, page_remove,
-- page_insert, boot_map_region, mmio_map_region) and user_mem_check. A struct PageInfo is the
-- index of its page, and the memory is a function from a page and the index of one of its 1024
-- words to the word, so that a table is a page like any other and is read and written where the
-- source does so. pp_ref is taken modulo 2 ^ 16, addresses and entries modulo 2 ^ 32. A failed
-- assert and a panic have the result `none`. A directory is sound (PgdirOk) where the tables that
-- it names exist and are apart from it and from one another; its own entry at UVPT, with which it
-- maps itself, is exempt, and so the theorems on translations leave out the addresses of UVPT.
-- Sistema.Procesos.Directorio is about the one that env_setup_vm makes. tlb_invalidate changes the
-- processor only and is left out, as are the locks.
--
-- Sistema models TP2-sched/kern/syscall.c with env_alloc, env_setup_vm, env_free and env_destroy
-- of kern/env.c. Its state is the table of environments and the memory, on which all calls act;
-- the caller is an argument, since curenv is fixed during a call. A Fin is how a call ends: it
-- returns a number with the state after it, or it gives up the CPU. Procesos, Paginas, Mensajes
-- and Llamadas have the environments, the calls on memory, the messages and the dispatcher. Fork
-- is lib/fork.c and lib/pgfault.c, which run in an environment and make system calls: `none` is a
-- panic, or a page fault that no handler mends. Sistema.Procesos uses the ids of Entornos and the
-- operations of Memoria as they are.
--
-- Consola models the input buffer of TP2-sched/kern/console.c (cons_intr, cons_getc): a ring of
-- 512 bytes, with what the serial port and the keyboard give as lists. Cola is its reading as a
-- queue.
--
-- Four loops have fuel. The loop of vprintfmt has one more than the format has bytes, and each
-- turn takes a % of it; printnum has one more than its number, which each call divides. The loop
-- of parse_exec has as much as the line has bytes, and each turn takes at least one byte;
-- parse_line has one more than that, and each call is on a shorter line. All other loops are
-- bounded by the sizes of their arrays or by their lists.
--
-- Not modelled: messages to the terminal, FUSE itself, the registers, locks and other devices of
-- the kernel, its traps and its set-up, the ELF loader, strcat and the assembly of memset and
-- memmove, the input loop of the shell and its signals, and the other programs of the repository.
pub mod Base
pub mod Fisopfs
pub mod Planificador
pub mod Shell
pub mod Strings
pub mod Entornos
pub mod Memoria
pub mod Sistema
pub mod Consola
