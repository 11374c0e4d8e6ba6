-- ===== src/Dex/Names.antt =====
-- dexutil.py: OP_NAMES (84-141), with the opcodes in decimal.
use android_workbench.Prelude.{ℕ, String, List, [], ◌∷◌}

unfoldable pub op_names : List (ℕ × String)
op_names =
    (0, "nop")
    ∷ (1, "move")
    ∷ (2, "move/from16")
    ∷ (3, "move/16")
    ∷ (4, "move-wide")
    ∷ (5, "move-wide/from16")
    ∷ (6, "move-wide/16")
    ∷ (7, "move-object")
    ∷ (8, "move-object/from16")
    ∷ (9, "move-object/16")
    ∷ (10, "move-result")
    ∷ (11, "move-result-wide")
    ∷ (12, "move-result-object")
    ∷ (13, "move-exception")
    ∷ (14, "return-void")
    ∷ (15, "return")
    ∷ (16, "return-wide")
    ∷ (17, "return-object")
    ∷ (18, "const/4")
    ∷ (19, "const/16")
    ∷ (20, "const")
    ∷ (21, "const/high16")
    ∷ (22, "const-wide/16")
    ∷ (23, "const-wide/32")
    ∷ (24, "const-wide")
    ∷ (25, "const-wide/high16")
    ∷ (26, "const-string")
    ∷ (27, "const-string/jumbo")
    ∷ (28, "const-class")
    ∷ (29, "monitor-enter")
    ∷ (30, "monitor-exit")
    ∷ (31, "check-cast")
    ∷ (32, "instance-of")
    ∷ (33, "array-length")
    ∷ (34, "new-instance")
    ∷ (35, "new-array")
    ∷ (36, "filled-new-array")
    ∷ (37, "filled-new-array/range")
    ∷ (38, "fill-array-data")
    ∷ (39, "throw")
    ∷ (40, "goto")
    ∷ (41, "goto/16")
    ∷ (42, "goto/32")
    ∷ (43, "packed-switch")
    ∷ (44, "sparse-switch")
    ∷ (45, "cmpl-float")
    ∷ (46, "cmpg-float")
    ∷ (47, "cmpl-double")
    ∷ (48, "cmpg-double")
    ∷ (49, "cmp-long")
    ∷ (50, "if-eq")
    ∷ (51, "if-ne")
    ∷ (52, "if-lt")
    ∷ (53, "if-ge")
    ∷ (54, "if-gt")
    ∷ (55, "if-le")
    ∷ (56, "if-eqz")
    ∷ (57, "if-nez")
    ∷ (58, "if-ltz")
    ∷ (59, "if-gez")
    ∷ (60, "if-gtz")
    ∷ (61, "if-lez")
    ∷ (68, "aget")
    ∷ (69, "aget-wide")
    ∷ (70, "aget-object")
    ∷ (71, "aget-boolean")
    ∷ (72, "aget-byte")
    ∷ (73, "aget-char")
    ∷ (74, "aget-short")
    ∷ (75, "aput")
    ∷ (76, "aput-wide")
    ∷ (77, "aput-object")
    ∷ (78, "aput-boolean")
    ∷ (79, "aput-byte")
    ∷ (80, "aput-char")
    ∷ (81, "aput-short")
    ∷ (82, "iget")
    ∷ (83, "iget-wide")
    ∷ (84, "iget-object")
    ∷ (85, "iget-boolean")
    ∷ (86, "iget-byte")
    ∷ (87, "iget-char")
    ∷ (88, "iget-short")
    ∷ (89, "iput")
    ∷ (90, "iput-wide")
    ∷ (91, "iput-object")
    ∷ (92, "iput-boolean")
    ∷ (93, "iput-byte")
    ∷ (94, "iput-char")
    ∷ (95, "iput-short")
    ∷ (96, "sget")
    ∷ (97, "sget-wide")
    ∷ (98, "sget-object")
    ∷ (99, "sget-boolean")
    ∷ (100, "sget-byte")
    ∷ (101, "sget-char")
    ∷ (102, "sget-short")
    ∷ (103, "sput")
    ∷ (104, "sput-wide")
    ∷ (105, "sput-object")
    ∷ (106, "sput-boolean")
    ∷ (107, "sput-byte")
    ∷ (108, "sput-char")
    ∷ (109, "sput-short")
    ∷ (110, "invoke-virtual")
    ∷ (111, "invoke-super")
    ∷ (112, "invoke-direct")
    ∷ (113, "invoke-static")
    ∷ (114, "invoke-interface")
    ∷ (116, "invoke-virtual/range")
    ∷ (117, "invoke-super/range")
    ∷ (118, "invoke-direct/range")
    ∷ (119, "invoke-static/range")
    ∷ (120, "invoke-interface/range")
    ∷ (123, "neg-int")
    ∷ (124, "not-int")
    ∷ (125, "neg-long")
    ∷ (126, "not-long")
    ∷ (127, "neg-float")
    ∷ (128, "neg-double")
    ∷ (129, "int-to-long")
    ∷ (130, "int-to-float")
    ∷ (131, "int-to-double")
    ∷ (132, "long-to-int")
    ∷ (133, "long-to-float")
    ∷ (134, "long-to-double")
    ∷ (135, "float-to-int")
    ∷ (136, "float-to-long")
    ∷ (137, "float-to-double")
    ∷ (138, "double-to-int")
    ∷ (139, "double-to-long")
    ∷ (140, "double-to-float")
    ∷ (141, "int-to-byte")
    ∷ (142, "int-to-char")
    ∷ (143, "int-to-short")
    ∷ (144, "add-int")
    ∷ (145, "sub-int")
    ∷ (146, "mul-int")
    ∷ (147, "div-int")
    ∷ (148, "rem-int")
    ∷ (149, "and-int")
    ∷ (150, "or-int")
    ∷ (151, "xor-int")
    ∷ (152, "shl-int")
    ∷ (153, "shr-int")
    ∷ (154, "ushr-int")
    ∷ (155, "add-long")
    ∷ (156, "sub-long")
    ∷ (157, "mul-long")
    ∷ (158, "div-long")
    ∷ (159, "rem-long")
    ∷ (160, "and-long")
    ∷ (161, "or-long")
    ∷ (162, "xor-long")
    ∷ (163, "shl-long")
    ∷ (164, "shr-long")
    ∷ (165, "ushr-long")
    ∷ (166, "add-float")
    ∷ (167, "sub-float")
    ∷ (168, "mul-float")
    ∷ (169, "div-float")
    ∷ (170, "rem-float")
    ∷ (171, "add-double")
    ∷ (172, "sub-double")
    ∷ (173, "mul-double")
    ∷ (174, "div-double")
    ∷ (175, "rem-double")
    ∷ (176, "add-int/2addr")
    ∷ (177, "sub-int/2addr")
    ∷ (178, "mul-int/2addr")
    ∷ (179, "div-int/2addr")
    ∷ (180, "rem-int/2addr")
    ∷ (181, "and-int/2addr")
    ∷ (182, "or-int/2addr")
    ∷ (183, "xor-int/2addr")
    ∷ (184, "shl-int/2addr")
    ∷ (185, "shr-int/2addr")
    ∷ (186, "ushr-int/2addr")
    ∷ (187, "add-long/2addr")
    ∷ (188, "sub-long/2addr")
    ∷ (189, "mul-long/2addr")
    ∷ (190, "div-long/2addr")
    ∷ (191, "rem-long/2addr")
    ∷ (192, "and-long/2addr")
    ∷ (193, "or-long/2addr")
    ∷ (194, "xor-long/2addr")
    ∷ (195, "shl-long/2addr")
    ∷ (196, "shr-long/2addr")
    ∷ (197, "ushr-long/2addr")
    ∷ (198, "add-float/2addr")
    ∷ (199, "sub-float/2addr")
    ∷ (200, "mul-float/2addr")
    ∷ (201, "div-float/2addr")
    ∷ (202, "rem-float/2addr")
    ∷ (203, "add-double/2addr")
    ∷ (204, "sub-double/2addr")
    ∷ (205, "mul-double/2addr")
    ∷ (206, "div-double/2addr")
    ∷ (207, "rem-double/2addr")
    ∷ (208, "add-int/lit16")
    ∷ (209, "rsub-int")
    ∷ (210, "mul-int/lit16")
    ∷ (211, "div-int/lit16")
    ∷ (212, "rem-int/lit16")
    ∷ (213, "and-int/lit16")
    ∷ (214, "or-int/lit16")
    ∷ (215, "xor-int/lit16")
    ∷ (216, "add-int/lit8")
    ∷ (217, "rsub-int/lit8")
    ∷ (218, "mul-int/lit8")
    ∷ (219, "div-int/lit8")
    ∷ (220, "rem-int/lit8")
    ∷ (221, "and-int/lit8")
    ∷ (222, "or-int/lit8")
    ∷ (223, "xor-int/lit8")
    ∷ (224, "shl-int/lit8")
    ∷ (225, "shr-int/lit8")
    ∷ (226, "ushr-int/lit8")
    ∷ (250, "invoke-polymorphic")
    ∷ (251, "invoke-polymorphic/range")
    ∷ (252, "invoke-custom")
    ∷ (253, "invoke-custom/range")
    ∷ (254, "const-method-handle")
    ∷ (255, "const-method-type")
    ∷ []
