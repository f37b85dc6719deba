-- ===== src/Lib.antt =====
-- libedi: reading, writing and recognising electronic data interchange messages, and looking up the
-- structures they are made of.
--
-- The program and its parts
--   A message is a string of bytes: segments of elements, elements of one value or several, with
--   separators and an escape character that depend on the dialect. libedi/parse.c reads a message
--   into an interchange (include/libedi.h), whose values are cut out of the string pools of
--   libedi/stringpool.c. libedi/build.c makes interchanges by hand, writes them into a buffer of
--   the caller and destroys them. libedi/detect.c keeps the registered dialects, which
--   libedi/init.c fills with the presets of libedi/edifact.h, libedi/tradacoms.h and libedi/x12.h,
--   and finds the dialect of a message from its head; the parser asks it before it reads.
--   libedistruct/struct_loader.c loads the tables of segments, composites, elements and coded
--   values from XML files, libedistruct/lookup.c looks them up by name in tables that are sorted
--   by name, and libedixml/conv.c writes a parsed interchange as XML with
--   the titles found there, through the buffer and the conversion of character sets of
--   libedixml/output.c. xml/edi2xml.c is the command: it loads the tables of a directory, reads a
--   message from a file and converts it.
--
-- The modules
--   Base         Boolean tests, lists and options over the native numbers; Base.Chars has bytes,
--                strings, and the tests for equality by strcmp and strncmp.
--   Params       edi_params_t, edi_detector_t and the presets.
--   Pool         edi__stringpool_get and edi__stringpool_alloc; Pool.Bounds has where buffers lie.
--   Interchange  the interchange, its segments and elements, the parser's state and its errors.
--   Parse        Parser (edi_parser_create, edi__parser_init,
--                edi_parser_destroy), Scan (the innermost loop of
--                edi_parser_parse, memcpyescape), Elements (the loop over the elements), Segments
--                (the loop over the segments) and Entry (edi_parser_parse, edi_parser_error); Runs
--                and Loop have the loops as relations, and Storage, State, Invariant and Kept
--                where the values are kept; Unterminated has the end of a message, and
--                Returns what the callers get.
--   Build        Buffer (the output buffer, addescaped), Header (addhdrtrailer) and Write
--                (edi_interchange_build); Cut and Bounds have what stands in the buffer.
--   Create       edi_interchange_create, edi_segment_create, edi_element_create, edi_element_add;
--                Kept, Values, Empty and Moved have what they make.
--   Destroy      edi_interchange_destroy, edi__stringpool_free and edi__stringpool_destroy.
--   Detect       Registry (edi_params_register, edi_detect_get, edi_detect_get_params, edi__init)
--                and Match (edi__detect); Names and Headers have the lookups and the presets' heads.
--                Heap has the blocks that entries point to, with edi__detect_rp_cleanup; Entries
--                relates it to Registry, Fair and Once say what is freed.
--   Format       the written form of a message, without buffers: what the builder should write and
--                the parser should read.
--   RoundTrip    from the written form through the parser and back.
--   Struct       libedistruct/lookup.c: Tables (include/libedistruct.h), Lookup (the searches),
--                Order, Search and Coded.
--   Loader       libedistruct/struct_loader.c: Driver (startElement, endElement, characterData), File
--                (parse_xml_file), Segments, Elements and Codes (the handlers and the loaders) and
--                Structures (concat_path, edistruct_load_xml_files), over the arrays of Memory.
--                Buffers, Tree, Depth and Split have what the driver makes of a file; Document,
--                Elements.Document and Codes.Document the documents that libedistruct/conv_specs.pl
--                writes, Rows and the modules below Segments, Elements and Codes how they fill the
--                tables, and Tables, Directory and Load what is read from them.
--   Xml          libedixml/conv.c and libedixml/output.c: Tokens (output, error, escape_xml), Elements
--                (coded_to_xml, element_to_xml, element_missing_xml, can_be_truncated), Segments
--                (segment_to_xml) and Conv (edi2xml_conv); Escape, Nested, Complete, Whole, Tables,
--                Sink, Delivered,
--                Parsed and Envelope have what is written. Output and Written (output_init, output,
--                output_set_enc) have the buffer, and Charset do_conv and escape_xml with a character
--                set, Errors libedixml/excep.c and edi2xml_error.
--   Command      xml/edi2xml.c; Flags and Options have what its options mean, and Run what it
--                converts.
--   Tests        runs on concrete messages.
--
-- How the code is rendered
--   A C string is the list of its bytes before the NUL, and a pointer into one the list of the
--   bytes from there on. Bytes are numbers below 256; where the code compares a char with an int,
--   a byte above 127 is taken as negative. A pointer into a pool is the pool's index and an offset.
--   A function that changes an object takes it and returns it. The union of the element types is a
--   data type; the pointers from an element to its segment and from a segment to its interchange
--   are the place where it stands, except that Create says of which elements the pointer still leads to
--   the segment.
--   The two loops of edi_parser_parse and the searches run on fuel. The parser gets the length of
--   the message and one more, which is enough since each round but the last takes a byte of it;
--   a search gets the size of its table and one more, which is enough since each round makes
--   the part searched smaller. A run that would exceed its fuel ends in a result of its own.
--   The loop over the buffers of a file gets the length of the file and one more: each round but the
--   last takes a whole buffer of it.
--   expat is a parameter of the loader: a state, and what a call of XML_Parse does with it, the
--   handlers that it calls given as a list of events. The arrays that the loader fills are lists of
--   entries whose fields are cleared, set or never set, and a table is read through such fields only
--   if none of them was never set.
--   Reads behind the end of a message or a table are results too (out_of_bounds, fault), and the
--   buffer of edi_interchange_build keeps the highest index that was written. In the XML converter
--   and the loader undefined behaviour is `none`; the converter's output is a list of tags, comments
--   and pieces of text with the starts of the calls of output, and Sink says what these calls leave on
--   stdout or in the buffer. Assertions are compiled in: one that fails is a result of its own.
--
-- What is left out
--   Failures of malloc, calloc and realloc, the mutexes, and wrap-around of size_t, which a string
--   in memory does not reach. expat/ and win32/ are copies of other projects; the tests and the Perl
--   scripts of libedistruct are not modelled.
--   iconv and getopt are parameters, of the conversion of character sets and of the command.
--   edi2xml_conv is modelled where no character set is opened, and none of the exceptions is thrown
--   in the middle of it; a conversion of the command through a character set is a result of its own.
--   edi2xml_conv2 is not modelled. A number of elements that error prints with %d is undefined
--   behaviour unless size_t is as wide as int.
pub mod Base
pub mod Params
pub mod Pool
pub mod Interchange
pub mod Parse
pub mod Build
pub mod Format
pub mod Detect
pub mod RoundTrip
pub mod Struct
pub mod Destroy
pub mod Loader
pub mod Xml
pub mod Create
pub mod Command
pub mod Tests
