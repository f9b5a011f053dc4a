-- ===== src/Lib.antt =====
-- A model of the core library of cube: byte blocks and text, circular lists, queues, hash lists,
-- the ring buffers of channels, JSON trees, fields of records as text, and the choice of routing
-- policies, and messages as bytes.
--
-- The program is a framework for processes that exchange messages. Its library, cubelib, replaces
-- the string functions of C (cubelib/string/memfunc.c), has containers for records with uuids
-- (cubelib/basefunc/basefunc.c, on the list macros of cubelib/include/list.h), buffers between the
-- two sides of a channel (cubelib/channel/channel_buf.c) and text encodings for binary data
-- (cubelib/crypto/radix64.c, and the hexadecimal functions of memfunc.c), and a reader and a printer
-- of JSON (cubelib/json/json.c). The databases, messages and routing rules of the higher layers stand
-- on these.
--
-- Prelude    shared names, Boolean tests, C arrays as lists of numbers with a default out of range
--            (Lists, Blocks), Memcpy and Memset (Memory), signed results (Int), finite tables
--            (Tables).
-- ChannelBuf channel_buf.c. `create`, `membuf_create`, `read` and `write` are the functions
--            channel_buf_create, channel_membuf_create, channel_buf_read and channel_buf_write. The
--            two tails wrap at 2 ^ 16, as UINT16 does.
-- Channel    cubelib/channel/channel.c, on two of these buffers, with the functions under their
--            names: creation, the four transfers, and in Channel/Registry the list of registered
--            channels with find_elem_with_tag of cubelib/include/attrlist.h.
-- Fifo       the bounded queue that PointerQueue implements.
-- PointerQueue, PointerStack, ListQueue, HashList
--            the four containers of basefunc.c, with the functions under their names. A pointer
--            is a number, 0 is NULL. An access outside of an array is `none`.
-- ListHead   list.h: the fields next and prev of all list heads are two functions of the address, so
--            that stores through aliases are those of the code. `init_list_head`, `list_add`,
--            `list_add_tail` and `list_del` are INIT_LIST_HEAD, List_add, List_add_tail and List_del.
-- Strings    the string functions and comparisons of memfunc.c. A string is the list of its bytes,
--            the terminator among them; beyond its end the model reads 0. Strings/Field is
--            Getfiledfromstr, for a `maxsize` that is not negative.
-- Json       json.c. A node has its fields and the list of its children. Json/Lexer and Json/Reader
--            are the lexers and json_solve_str: the nodes that are open are the nearest one and a
--            list of those above it, and one round of the loop is `one_round`. A write behind
--            value_buffer is an outcome of its own. Json/Printer is json_print_str with comp_no and
--            curr_child of the nodes above the current one. Json/Spec has JSON values with their text
--            and their tree, Json/Access the other functions.
-- Route      cubelib/dispatch/route_tree.c: the match rules of a policy and the searches for a policy,
--            with the functions under their names (`route_match_rules` is _route_match_rules). The loops
--            over a list are recursion on its records, and Route/NodeList has the cursor by which the
--            code walks over them. Route/Meaning, Route/Verdict and Route/Search say what a rule
--            means and what matching and the searches decide.
-- EnumFlag   cubelib/struct_mod/enum_flag_ops.c: enumerations and flags of a field as text, with the
--            functions under their names. The write of a value that was never set and a write behind
--            temp_string are `none`.
-- ElemOps    cubelib/struct_mod/struct_ops.c: UINT16ToArray, UINT32ToArray, UINT64ToArray,
--            Decode_UINT16 and Decode_UINT64, _digest_to_uuid, _uuid_to_digest, and uuids as text.
-- MessageQueue
--            cubelib/ex_module/sec_msgqueue.c, `put_record` and `get_record` are
--            __message_queue_putmsg and __message_queue_getmsg. A call is one step, as its lock makes
--            it.
-- Message    cubelib/message/message.c with message_box.h: a box with its head and the sites of its
--            records and expands, one for each index of the three parallel arrays, with the functions
--            under their names. Message/Sites and Message/Expands add, find and remove, Message/Output
--            makes bytes and Message/Input reads them, and Message/Head has the accessors. A
--            struct is a value of any type, and what its template does a record of operations,
--            `StructOps`. An access outside of an array, or to one that was freed, is `none`; an
--            `int` of a head is its 32 bits.
-- Hex        bin_2_hex, hex_2_bin, Isvaliduuid, Isemptyuuid and Isstrinuuid of
--            memfunc.c.
-- Alloc      the tagged blocks of cubelib/alloc/alloc.c: Talloc, Calloc, Dalloc and Salloc, Palloc,
--            Free and Free0 under their names, on a heap that gives the block at each address; a free
--            of an address that `malloc` did not give is `none`.
-- Bitmap     bitmap_set, bitmap_clear, bitmap_get and bitmap_is_allset of memfunc.c.
-- Number     Itoa and Atoi of memfunc.c.
-- Radix64    radix64.c.
--
-- Channel uses ChannelBuf for both directions and Strings for names; its sessions are streams of
-- ChannelBuf/Stream. HashList uses Strings for the search by name and the lists of Prelude for its
-- chains, which ListHead justifies; ListQueue works on the store of ListHead itself. Json prints
-- numbers with Number and compares names with Strings, as Route does.
--
-- The other files do not use Alloc: a function that allocates takes whether it got memory, or the
-- address it got, as the allocations of Alloc take what `malloc` made. Functions of the other files
-- that only free memory are left out.
--
-- Loops are recursion on the lists or the counts they run over. Itoa runs on `int_digits` = 10
-- rounds, which are enough for each number of an `int`, and the search of Atoi for the start of the
-- number on the length of the text. json_solve_str runs on the length of its text, since each round
-- takes a character, and json_print_str on the weight of the tree, which each round lessens. What
-- memory json_solve_str gets is a function of the length of the text that is left at a round.
--
-- Not modelled: the block list of alloc.c; List_cat and List_split of list.h; json_remove_node of
-- json.c and what it only frees; Getlowestbit and Strdup of memfunc.c; the walk of a message along
-- its path and the traces in route_tree.c, and the reading of policies; integers, times, strings and
-- name lists in struct_ops.c; the structure, database and error layers, and the JSON
-- outputs, the loading of structs and the cloning in message.c, which build on this core. Sockets,
-- threads, shared objects and configuration files are calls of the operating system, the ciphers
-- and hash functions are copies of other projects, and the plugins and examples are programs on top
-- of the library.
pub mod Prelude
pub mod ChannelBuf
pub mod Channel
pub mod Fifo
pub mod ListHead
pub mod ListQueue
pub mod Radix64
pub mod Strings
pub mod Json
pub mod Route
pub mod EnumFlag
pub mod ElemOps
pub mod MessageQueue
pub mod Message
pub mod Hex
pub mod Alloc
pub mod Bitmap
pub mod Number
pub mod HashList
pub mod PointerQueue
pub mod PointerStack
